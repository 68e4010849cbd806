-- ===== src/Web/Paths.antt =====
-- path/filepath: `Clean` and `Join`. A cleaned path is the list of its elements.
pub mod Beneath
use kessa.Base.{
  ℕ, ◌==◌, Str, codes, str_eq, is_empty, split, join, Bool, true, false, not, ◌||◌, List, [], ◌∷◌,
  if◌then◌else◌, ◌≡◌, refl,
}
use kessa.Web.{starts_with}
use mathlib.Core.List.{reverse}

pub record FilePath : Type 0 where
  pub rooted : Bool
  pub parts : List Str

-- `..` at an element takes it away; at the root it is nothing, and elsewhere it is kept.
go_up : Bool → List Str → List Str
go_up rooted [] = if rooted then [] else codes ".." ∷ []
go_up rooted (c ∷ cs) = if str_eq c (codes "..") then codes ".." ∷ c ∷ cs else cs

unfoldable pub push : Bool → List Str → Str → List Str
unfolding go_up
push rooted stack c =
    if is_empty c || str_eq c (codes ".")
    then stack
    else if str_eq c (codes "..")
    then go_up rooted stack
    else c ∷ stack

unfoldable pub push_all : Bool → List Str → List Str → List Str
push_all rooted stack [] = stack
push_all rooted stack (c ∷ cs) = push_all rooted (push rooted stack c) cs

-- `filepath.Clean`
unfoldable pub clean : Str → FilePath
clean s = record {
  rooted = starts_with b'/' s;
  parts = reverse (push_all (starts_with b'/' s) [] (split b'/' s));
}

unfoldable pub not_empty : List Str → List Str
not_empty [] = []
not_empty (s ∷ ss) = if is_empty s then not_empty ss else s ∷ not_empty ss

-- `filepath.Join`
unfoldable pub join_path : List Str → FilePath
join_path parts = clean (join (b'/' ∷ []) (not_empty parts))

clean_test : (clean (codes "/srv//www/../pub/.")).parts ≡ codes "srv" ∷ codes "pub" ∷ []
unfolding clean push_all push split starts_with str_eq
clean_test = refl
