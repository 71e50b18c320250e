-- ===== src/Path.antt =====
-- `pathlib.PurePosixPath`: its root and its parts, `/` by one relative name, and `str`.
use ezhpcy.Prelude.{List, [], ◌∷◌, ◌++◌}
use ezhpcy.Text.{Text, codes, join}

pub record PosixPath : Type 0 where
  pub root : Text
  pub parts : List Text

-- `path / name`, for a relative name of one part.
abbrev pub child : PosixPath → Text → PosixPath
child p name = record p { parts = p.parts ++ name ∷ [] }

abbrev pub rooted : Text → List Text → Text
rooted [] [] = codes "."
rooted root parts = root ++ join (codes "/") parts

-- `str(path)`
unfoldable pub path_str : PosixPath → Text
unfolding join
path_str p = rooted p.root p.parts

-- `path.parent`
abbrev pub init : List Text → List Text
init [] = []
init (p ∷ []) = []
init (p ∷ q ∷ ps) = p ∷ init (q ∷ ps)

abbrev pub parent : PosixPath → PosixPath
parent p = record p { parts = init p.parts }
