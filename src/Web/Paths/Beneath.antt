-- ===== src/Web/Paths/Beneath.antt =====
-- Joining names to a root stays beneath the root.
use mathlib.Core.List.{reverse, reverse-cons, append_assoc, append-nil}
use kessa.Base.{
  ℕ, ◌==◌, ◌≡◌, ◌≢◌, refl, sym, ap, ◌∙◌, Str, codes, str_eq, str_eq_iff, is_empty, split,
  split_from, join, Bool, false, Bool-cases, ||-eq-false, inl, inr, List, [], ◌∷◌, ◌++◌, All, arith,
}
use kessa.Web.{has_byte, starts_with}
use kessa.Web.Paths.{FilePath, push, push_all, clean, not_empty, join_path}

-- A name in a directory: not empty, not `.` or `..`, and without a slash.
abbrev pub IsSegment : Str → Type 0
IsSegment s = (s ≢ []) × (s ≢ codes ".") × (s ≢ codes "..") × (has_byte b'/' s ≡ false)

not_eq : (s t : Str) → s ≢ t → str_eq s t ≡ false
not_eq s t n = elim (Bool-cases (str_eq s t)) [
  | inl e ↦ absurd (n ((str_eq_iff s t).0 e))
  | inr e ↦ e
]

not_nil : (s : Str) → s ≢ [] → is_empty s ≡ false
not_nil [] n = absurd (n refl)
not_nil (c ∷ s) n = refl

push-IsSegment :
    (rooted : Bool) (stack : List Str) (c : Str) → IsSegment c → push rooted stack c ≡ c ∷ stack
unfolding push
push-IsSegment rooted stack c (some_byte, no_dot, no_dots, _) =
    rw (not_nil c some_byte)
      (rw (not_eq c (codes ".") no_dot) (rw (not_eq c (codes "..") no_dots) refl))

push_all-IsSegment :
    (rooted : Bool) (stack cs : List Str)
    → All IsSegment cs
    → reverse (push_all rooted stack cs) ≡ reverse stack ++ cs
unfolding push_all
push_all-IsSegment rooted stack [] h = sym (append-nil (reverse stack))
push_all-IsSegment rooted stack (c ∷ cs) h =
    ap (λ s. reverse (push_all rooted s cs)) (push-IsSegment rooted stack c h.0)
    ∙ push_all-IsSegment rooted (c ∷ stack) cs h.1
    ∙ ap (λ s. s ++ cs) (reverse-cons c stack)
    ∙ append_assoc (reverse stack) (c ∷ []) cs

push_all-append :
    (rooted : Bool) (stack xs ys : List Str)
    → push_all rooted stack (xs ++ ys) ≡ push_all rooted (push_all rooted stack xs) ys
unfolding push_all
push_all-append rooted stack [] ys = refl
push_all-append rooted stack (x ∷ xs) ys = push_all-append rooted (push rooted stack x) xs ys

split_from-append :
    (sep : ℕ) (piece a b : Str)
    → split_from sep piece (a ++ sep ∷ b) ≡ split_from sep piece a ++ split_from sep [] b
unfolding split_from
split_from-append sep piece [] b = ground arith
split_from-append sep piece (c ∷ a) b = elim (Bool-cases (c == sep)) [
  | inl e ↦ rw e (ap (λ t. reverse piece ∷ t) (split_from-append sep [] a b))
  | inr e ↦ rw e (split_from-append sep (c ∷ piece) a b)
]

split_from-whole :
    (sep : ℕ) (piece s : Str)
    → has_byte sep s ≡ false
    → split_from sep piece s ≡ (reverse piece ++ s) ∷ []
unfolding split_from has_byte
split_from-whole sep piece [] h = ap (λ t. t ∷ []) (sym (append-nil (reverse piece)))
split_from-whole sep piece (c ∷ s) h =
    let (here, rest) = ||-eq-false (c == sep) (has_byte sep s) h in
    rw here (
      split_from-whole sep (c ∷ piece) s rest
      ∙ ap (λ t. (t ++ s) ∷ []) (reverse-cons c piece)
      ∙ ap (λ t. t ∷ []) (append_assoc (reverse piece) (c ∷ []) s))

abbrev pub Lacks : ℕ → Str → Type 0
Lacks sep s = has_byte sep s ≡ false

-- Splitting undoes joining.
pub split-join :
    (sep : ℕ) (c : Str) (cs : List Str)
    → All (Lacks sep) (c ∷ cs)
    → split sep (join (sep ∷ []) (c ∷ cs)) ≡ c ∷ cs
unfolding split join
split-join sep c [] h = split_from-whole sep [] c h.0
split-join sep c (d ∷ ds) h =
    split_from-append sep [] c (join (sep ∷ []) (d ∷ ds))
    ∙ ap (λ t. t ++ split_from sep [] (join (sep ∷ []) (d ∷ ds))) (split_from-whole sep [] c h.0)
    ∙ ap (λ t. c ∷ t) (split-join sep d ds h.1)

All-Lacks : (cs : List Str) → All IsSegment cs → All (Lacks b'/') cs
All-Lacks [] h = tt
All-Lacks (c ∷ cs) h = (h.0.3, All-Lacks cs h.1)

not_empty-IsSegment : (cs : List Str) → All IsSegment cs → not_empty cs ≡ cs
unfolding not_empty
not_empty-IsSegment [] h = refl
not_empty-IsSegment (c ∷ cs) h = rw (not_nil c h.0.0) (ap (λ t. c ∷ t) (not_empty-IsSegment cs h.1))

-- The path of a root and names beneath it.
abbrev pub beneath : FilePath → List Str → FilePath
beneath root cs = record { rooted = root.rooted; parts = root.parts ++ cs }

starts_with-join :
    (c : Str) (cs : List Str) → IsSegment c → starts_with b'/' (join (b'/' ∷ []) (c ∷ cs)) ≡ false
unfolding starts_with join has_byte
starts_with-join [] cs h = absurd (h.0 refl)
starts_with-join (x ∷ c) [] h = (||-eq-false (x == b'/') (has_byte b'/' c) h.3).0
starts_with-join (x ∷ c) (d ∷ ds) h = (||-eq-false (x == b'/') (has_byte b'/' c) h.3).0

same_path :
    (r s : Bool) (xs ys : List Str)
    → r ≡ s
    → xs ≡ ys
    → ◌≡◌ {A = FilePath} (record { rooted = r; parts = xs }) (record { rooted = s; parts = ys })
same_path r s xs ys p q =
    ap {A = Bool} {B = FilePath} (λ b. record { rooted = b; parts = xs }) p
    ∙ ap {A = List Str} {B = FilePath} (λ l. record { rooted = s; parts = l }) q

clean-join :
    (c : Str) (cs : List Str)
    → All IsSegment (c ∷ cs)
    → clean (join (b'/' ∷ []) (c ∷ cs)) ≡ beneath (clean []) (c ∷ cs)
unfolding clean push_all push split starts_with
clean-join c cs h =
    let whole = join (b'/' ∷ []) (c ∷ cs) in
    same_path (starts_with b'/' whole) false _ (c ∷ cs) (starts_with-join c cs h.0) (
      ap (λ l. reverse (push_all (starts_with b'/' whole) [] l))
        (split-join b'/' c cs (All-Lacks (c ∷ cs) h))
      ∙ push_all-IsSegment (starts_with b'/' whole) [] (c ∷ cs) h)

clean-under :
    (x : ℕ) (root c : Str) (cs : List Str)
    → All IsSegment (c ∷ cs)
    → clean ((x ∷ root) ++ b'/' ∷ join (b'/' ∷ []) (c ∷ cs)) ≡ beneath (clean (x ∷ root)) (c ∷ cs)
unfolding clean starts_with split
clean-under x root c cs h = same_path (x == b'/') (x == b'/') _ _ refl (
    ap (λ l. reverse (push_all (x == b'/') [] l))
      (split_from-append b'/' [] (x ∷ root) (join (b'/' ∷ []) (c ∷ cs))
        ∙ ap (λ l. split b'/' (x ∷ root) ++ l) (split-join b'/' c cs (All-Lacks (c ∷ cs) h)))
    ∙ ap reverse (push_all-append (x == b'/') [] (split b'/' (x ∷ root)) (c ∷ cs))
    ∙ push_all-IsSegment (x == b'/') (push_all (x == b'/') [] (split b'/' (x ∷ root))) (c ∷ cs) h)

-- Joining names to a root leaves the root's own path and appends the names.
pub join_path-beneath :
    (root c : Str) (cs : List Str)
    → All IsSegment (c ∷ cs)
    → join_path (root ∷ c ∷ cs) ≡ beneath (clean root) (c ∷ cs)
unfolding join_path not_empty join
join_path-beneath [] c cs h =
    ap (λ l. clean (join (b'/' ∷ []) l)) (not_empty-IsSegment (c ∷ cs) h) ∙ clean-join c cs h
join_path-beneath (x ∷ root) c cs h =
    ap (λ l. clean (join (b'/' ∷ []) ((x ∷ root) ∷ l))) (not_empty-IsSegment (c ∷ cs) h)
    ∙ clean-under x root c cs h
