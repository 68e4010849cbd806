-- ===== src/Web/Host/Safety.antt =====
-- What a host that passes `Validate` is made of.
use mathlib.Core.List.{reverse, reverse-cons, append_assoc}
use kessa.Base.{
  ℕ, ◌==◌, ==_iff, leb, length, ◌≡◌, ◌≢◌, refl, sym, ap, ◌∙◌, subst, Str, codes, is_empty, split,
  split_from, Bool, true, false, not, ◌||◌, &&-eq-true, inl, inr, ◌⊎◌, Option, none, some, List, [],
  ◌∷◌, ◌++◌, All, Result, ok, err, guard, require, then_iff, guard_iff, >>=-eq-ok, require-eq-ok,
  if◌then◌else◌, ok_inj, some_inj, arith,
}
use kessa.Web.{
  Net, Addr, has_byte, starts_with, split_last, extend_left, drop_last, last_byte, is_digit,
  all_digits,
}
use kessa.Web.Paths.Beneath.{IsSegment}
use kessa.Web.Host.{
  HostError, empty_label, label_too_long, hyphen_at_end, multiple_colons, after_literal,
  split_bracketed, split_plain, split_port, is_host_byte, check_bytes, check_label, check_labels,
  validate_hostname, validate_ipv6_literal, validate_port, check_name, check_port, validate,
}

-- The bytes of a host with its port: those of hostnames, and the punctuation of names, ports and
-- literals.
abbrev pub is_authority_byte : ℕ → Bool
is_authority_byte c = is_host_byte c || (c == b'.' || c == b':' || c == b'[' || c == b']')

abbrev pub IsAuthority : Str → Type 0
IsAuthority = All (λ c. is_authority_byte c ≡ true)

-- An address without a zone is written in digits, letters, colons and dots.
abbrev pub WritesAddresses : Net → Type 0
WritesAddresses net = (s : Str) (a : Addr) → net.parse_addr s ≡ some a → a.zone ≡ [] → IsAuthority s

IsAuthority-append : (s t : Str) → IsAuthority s → IsAuthority t → IsAuthority (s ++ t)
IsAuthority-append [] t hs ht = ht
IsAuthority-append (c ∷ s) t hs ht = (hs.0, IsAuthority-append s t hs.1 ht)

pub split_last-append : (c : ℕ) (s a b : Str) → split_last c s ≡ some (a, b) → s ≡ a ++ c ∷ b
unfolding split_last
split_last-append c [] a b h = cc
split_last-append c (x ∷ s) a b h =
    by_rest (split_last c s) refl (x == c) refl h (split_last-append c s)
  where
    by_rest :
        (r : Option (Str × Str))
        → split_last c s ≡ r
        → (here : Bool) → (x == c) ≡ here
        → extend_left x s here r ≡ some (a, b)
        → ((a b : Str) → split_last c s ≡ some (a, b) → s ≡ a ++ c ∷ b)
        → x ∷ s ≡ a ++ c ∷ b
    by_rest (some (a', b')) e here same made ih =
        let eq : ◌≡◌ {A = Option (Str × Str)} (some (x ∷ a', b')) (some (a, b)) = made in
        let rest = ih a' b' e in cc (rest, eq)
    by_rest none e true same made ih =
        let eq : ◌≡◌ {A = Option (Str × Str)} (some ([], s)) (some (a, b)) = made in
        let xc : x ≡ c = (==_iff x c).0 same in cc (eq, xc)
    by_rest none e false same made ih =
        let eq : ◌≡◌ {A = Option (Str × Str)} none (some (a, b)) = made in cc

module _ (P : ℕ → Type 0) where
  All-left : (xs ys : Str) → All P (xs ++ ys) → All P xs × All P ys
  All-left [] ys h = (tt, h)
  All-left (x ∷ xs) ys h = let (l, r) = All-left xs ys h.1 in ((h.0, l), r)

  All-reverse : (xs : Str) → All P (reverse xs) → All P xs
  All-reverse [] h = tt
  All-reverse (x ∷ xs) h =
      let (l, r) = All-left (reverse xs) (x ∷ []) (subst (All P) (reverse-cons x xs) h) in
      (r.0, All-reverse xs l)

  -- Where every piece of a split has a property of its bytes, so has the whole but the separators.
  pub split_from-All :
      (sep : ℕ) (piece s : Str)
      → All (All P) (split_from sep piece s)
      → All P piece × All (λ c. P c ⊎ (c ≡ sep)) s
  unfolding split_from
  split_from-All sep piece [] h = (All-reverse piece h.0, tt)
  split_from-All sep piece (c ∷ s) h =
      by_test (c == sep) refl h (split_from-All sep [] s) (split_from-All sep (c ∷ piece) s)
    where
      by_test :
          (b : Bool)
          → (c == sep) ≡ b
          → All
              (All P)
              (if b then reverse piece ∷ split_from sep [] s else split_from sep (c ∷ piece) s)
          → (All (All P) (split_from sep [] s) → All P [] × All (λ x. P x ⊎ (x ≡ sep)) s)
          → (All (All P) (split_from sep (c ∷ piece) s)
              → All P (c ∷ piece) × All (λ x. P x ⊎ (x ≡ sep)) s)
          → All P piece × All (λ x. P x ⊎ (x ≡ sep)) (c ∷ s)
      by_test true e h next more = (All-reverse piece h.0, (inr ((==_iff c sep).0 e), (next h.1).1))
      by_test false e h next more = let (p, r) = more h in (p.1, (inl p.0, r))

check_bytes-IsAuthority : (s : Str) → check_bytes s ≡ ok tt → IsAuthority s
unfolding check_bytes
check_bytes-IsAuthority [] h = tt
check_bytes-IsAuthority (c ∷ s) h =
    let (here, rest) = (then_iff _ _).0 h in
    let host_byte : is_host_byte c ≡ true = (guard_iff _ _).0 here in
    (rw host_byte refl, check_bytes-IsAuthority s rest)

check_label-IsAuthority : (l : Str) → check_label l ≡ ok tt → IsAuthority l
unfolding check_label
check_label-IsAuthority l h =
    let (_, h1) = (then_iff (guard (not (is_empty l)) empty_label) _).0 h in
    let (_, h2) = (then_iff (guard (leb (length l) 63) label_too_long) _).0 h1 in
    let (_, bytes) =
      (then_iff (guard (not (starts_with b'-' l || last_byte l == b'-')) hyphen_at_end) _).0 h2 in
    check_bytes-IsAuthority l bytes

check_labels-All : (ls : List Str) → check_labels ls ≡ ok tt → All IsAuthority ls
unfolding check_labels
check_labels-All [] h = tt
check_labels-All (l ∷ ls) h =
    let (label, rest) = (then_iff (check_label l) (check_labels ls)).0 h in
    (check_label-IsAuthority l label, check_labels-All ls rest)

dots : (s : Str) → All (λ c. (is_authority_byte c ≡ true) ⊎ (c ≡ b'.')) s → IsAuthority s
dots [] h = tt
dots (c ∷ s) (inl a, rest) = (a, dots s rest)
dots (c ∷ s) (inr e, rest) = (subst (λ x. is_authority_byte x ≡ true) (sym e) dot, dots s rest)
  where
    dot : is_authority_byte b'.' ≡ true
    dot = ground arith

validate_hostname-IsAuthority : (name : Str) → validate_hostname name ≡ ok tt → IsAuthority name
unfolding validate_hostname split
validate_hostname-IsAuthority name h =
    let (_, h1) = (then_iff _ _).0 h in
    let (_, labels) = (then_iff _ _).0 h1 in
    dots name
      (split_from-All (λ c. is_authority_byte c ≡ true) b'.' [] name
        (check_labels-All (split b'.' name) labels)).1

digits-IsAuthority : (s : Str) → all_digits s ≡ true → IsAuthority s
unfolding all_digits is_digit is_host_byte
digits-IsAuthority [] h = tt
digits-IsAuthority (c ∷ s) h =
    let (here, rest) = &&-eq-true (is_digit c) (all_digits s) h in
    (ground arith, digits-IsAuthority s rest)

pub drop_last-append :
    (c : ℕ) (x : ℕ) (s : Str) → last_byte (x ∷ s) ≡ c → x ∷ s ≡ drop_last (x ∷ s) ++ c ∷ []
unfolding drop_last last_byte
drop_last-append c x [] h = ap (λ y. y ∷ []) h
drop_last-append c x (y ∷ s) h = ap (λ t. x ∷ t) (drop_last-append c y s h)

bracket_bytes :
    (is_authority_byte b'[' ≡ true)
    × (is_authority_byte b']' ≡ true)
    × (is_authority_byte b':' ≡ true)
bracket_bytes = (ground arith, ground arith, ground arith)

module _ (net : Net) (writes : WritesAddresses net) where
  validate_ipv6_literal-IsAuthority :
      (name : Str)
      → starts_with b'[' name ≡ true
      → validate_ipv6_literal net name ≡ ok tt
      → IsAuthority name
  unfolding validate_ipv6_literal starts_with drop_last last_byte
  validate_ipv6_literal-IsAuthority [] s h = cc
  validate_ipv6_literal-IsAuthority (x ∷ []) s h =
      let (here, _) = (then_iff _ _).0 h in
      let closing : (x == b']') ≡ true = (guard_iff _ _).0 here in absurd (ground arith)
  validate_ipv6_literal-IsAuthority (x ∷ y ∷ r) s h =
      let (here, h1) = (then_iff _ _).0 h in
      let closing : (last_byte (y ∷ r) == b']') ≡ true = (guard_iff _ _).0 here in
      let (_, h2) = (then_iff _ _).0 h1 in
      let (a, parsed, h3) = >>=-eq-ok (require (net.parse_addr (drop_last (y ∷ r))) _) _ h2 in
      let (_, zoned) = (then_iff _ _).0 h3 in
      let no_zone : is_empty a.zone ≡ true = (guard_iff _ _).0 zoned in
      let inner =
        writes (drop_last (y ∷ r)) a (require-eq-ok _ _ parsed) (emptied a.zone no_zone) in
      let whole = drop_last-append b']' y r ((==_iff _ _).0 closing) in
      let opening : x ≡ b'[' = (==_iff x b'[').0 s in
      (
        subst (λ z. is_authority_byte z ≡ true) (sym opening) bracket_bytes.0,
        subst IsAuthority (sym whole)
            (IsAuthority-append (drop_last (y ∷ r)) (b']' ∷ []) inner (bracket_bytes.1, tt)),
      )
    where
      emptied : (z : Str) → is_empty z ≡ true → z ≡ []
      emptied [] h = refl
      emptied (c ∷ z) h = cc

  check_name-IsAuthority : (name : Str) → check_name net name ≡ ok tt → IsAuthority name
  unfolding check_name
  check_name-IsAuthority name h = by_start (starts_with b'[' name) refl h
    where
      by_start :
          (b : Bool)
          → starts_with b'[' name ≡ b
          → (if b then validate_ipv6_literal net name else validate_hostname name) ≡ ok tt
          → IsAuthority name
      by_start true e h = validate_ipv6_literal-IsAuthority name e h
      by_start false e h = validate_hostname-IsAuthority name h

  check_port-IsAuthority :
      (port : Option Str) (t : Str) → check_port port ≡ ok tt → port ≡ some t → IsAuthority t
  unfolding check_port validate_port
  check_port-IsAuthority none t h e = cc
  check_port-IsAuthority (some port) t h e =
      let (_, h1) = (then_iff _ _).0 h in
      let (here, _) = (then_iff _ _).0 h1 in
      let digits : all_digits port ≡ true = (guard_iff _ _).0 here in
      subst IsAuthority (some_inj e) (digits-IsAuthority port digits)

  -- What is split off a host is its name, and its port after a colon.
  abbrev IsSplit : Str → Str → Option Str → Type 0
  IsSplit host name none = host ≡ name
  IsSplit host name (some port) = host ≡ name ++ b':' ∷ port

  split_bracketed-IsSplit :
      (host name : Str) (port : Option Str) (o : Option (Str × Str))
      → split_last b']' host ≡ o
      → split_bracketed host o ≡ ok (name, port)
      → IsSplit host name port
  unfolding split_bracketed
  split_bracketed-IsSplit host name port none found h = cc
  split_bracketed-IsSplit host name port (some (a, [])) found h =
      subst (λ x. IsSplit host x.0 x.1) (ok_inj h) refl
  split_bracketed-IsSplit host name port (some (a, c ∷ b)) found h = by_colon (c == b':') refl h
    where
      by_colon :
          (t : Bool)
          → (c == b':') ≡ t
          → ◌≡◌ {A = Result HostError (Str × Option Str)}
              (if t then ok (a ++ b']' ∷ [], some b) else err (after_literal (c ∷ b)))
              (ok (name, port))
          → IsSplit host name port
      by_colon true e h =
          subst (λ x. IsSplit host x.0 x.1) (ok_inj h)
            (split_last-append b']' host a (c ∷ b) found
              ∙ ap (λ x. a ++ b']' ∷ x ∷ b) ((==_iff c b':').0 e)
              ∙ sym (append_assoc a (b']' ∷ []) (b':' ∷ b)))
      by_colon false e h = cc

  split_plain-IsSplit :
      (host name : Str) (port : Option Str) (o : Option (Str × Str))
      → split_last b':' host ≡ o
      → split_plain host o ≡ ok (name, port)
      → IsSplit host name port
  unfolding split_plain
  split_plain-IsSplit host name port none found h =
      subst (λ x. IsSplit host x.0 x.1) (ok_inj h) refl
  split_plain-IsSplit host name port (some (a, b)) found h = by_colon (has_byte b':' a) h
    where
      by_colon :
          (t : Bool)
          → ◌≡◌ {A = Result HostError (Str × Option Str)}
              (if t then err multiple_colons else ok (a, some b))
              (ok (name, port))
          → IsSplit host name port
      by_colon true h = cc
      by_colon false h =
          subst (λ x. IsSplit host x.0 x.1) (ok_inj h) (split_last-append b':' host a b found)

  split_port-IsSplit :
      (host name : Str) (port : Option Str)
      → split_port host ≡ ok (name, port)
      → IsSplit host name port
  unfolding split_port
  split_port-IsSplit host name port h = by_start (starts_with b'[' host) h
    where
      by_start :
          (b : Bool)
          → (if b
              then split_bracketed host (split_last b']' host)
              else split_plain host (split_last b':' host))
            ≡ ok (name, port)
          → IsSplit host name port
      by_start true h = split_bracketed-IsSplit host name port (split_last b']' host) refl h
      by_start false h = split_plain-IsSplit host name port (split_last b':' host) refl h

  joined :
      (host name : Str) (port : Option Str)
      → IsSplit host name port
      → IsAuthority name
      → ((t : Str) → port ≡ some t → IsAuthority t)
      → IsAuthority host
  joined host name none e n p = subst IsAuthority (sym e) n
  joined host name (some t) e n p =
      subst IsAuthority (sym e) (IsAuthority-append name (b':' ∷ t) n (bracket_bytes.2, p t refl))

  pub validate-IsAuthority : (host : Str) → validate net host ≡ ok tt → IsAuthority host
  unfolding validate
  validate-IsAuthority host h =
      let (_, h1) = (then_iff _ _).0 h in
      let ((name, port), parts, h2) = >>=-eq-ok (split_port host) _ h1 in
      let (named, ported) = (then_iff (check_name net name) (check_port port)).0 h2 in
      joined host name port (split_port-IsSplit host name port parts)
        (check_name-IsAuthority name named) (λ t e. check_port-IsAuthority port t ported e)

slash_free : (s : Str) → IsAuthority s → has_byte b'/' s ≡ false
unfolding has_byte is_host_byte
slash_free [] h = refl
slash_free (c ∷ s) h = let rest = slash_free s h.1 in let here = h.0 in ground arith

dot_refused : (net : Net) → (validate net (codes ".") ≢ ok tt) × (validate net (codes "..") ≢ ok tt)
unfolding validate split_port split_plain split_last starts_with check_name validate_hostname split
    split_from check_labels check_label
dot_refused net = (λ h. cc, λ h. cc)

empty_refused : (net : Net) → validate net [] ≢ ok tt
unfolding validate
empty_refused net h = cc

-- A host that passes can name a directory.
pub validate-IsSegment :
    (net : Net) → WritesAddresses net → (host : Str) → validate net host ≡ ok tt → IsSegment host
validate-IsSegment net writes host h = (
  λ e. empty_refused net (subst (λ x. validate net x ≡ ok tt) e h),
  λ e. (dot_refused net).0 (subst (λ x. validate net x ≡ ok tt) e h),
  λ e. (dot_refused net).1 (subst (λ x. validate net x ≡ ok tt) e h),
  slash_free host (validate-IsAuthority net writes host h),
)
