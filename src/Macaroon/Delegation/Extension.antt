-- ===== src/Macaroon/Delegation/Extension.antt =====
-- `Extends` accepts exactly the attenuations of a parent, and an extension never has more authority.
use mathlib.Core.List.{append-nil, append_assoc}
use kessa.Base.{
  ℕ, suc, leb, Str, str_eq, str_eq_iff, str_eq_refl, ◌≡◌, refl, sym, ap, ap₂, ◌∙◌, subst, ◌↔◌, Bool,
  true, false, &&-eq-true, List, [], ◌∷◌, ◌++◌, length, length-append, drop, All, arith, Result, ok,
  err, ◌>>=◌, ◌>>◌, guard, wrap, then_iff, guard_iff, iff_trans, iff_pair, >>=-eq-ok, ok_inj,
  if◌then◌else◌,
}
use kessa.Base.Dict.{Dict}
use kessa.Errors.{Error, cannot_attenuate, does_not_narrow, incomparable, broadens, fewer_caveats}
use kessa.Platform.{Platform}
use kessa.Macaroon.{
  canonical, Op, unknown, Caveat, Macaroon, validate, narrows, satisfied, all_satisfied, satisfies,
}
use kessa.Macaroon.Delegation.{
  check_against, attenuate, op_eq, caveat_eq, check_prefix, check_added, extends,
}

op_eq_sound : (a b : Op) → op_eq a b ≡ true → a ≡ b
unfolding op_eq
op_eq_sound (unknown s) (unknown t) h = ap unknown ((str_eq_iff s t).0 h)
op_eq_sound a b h = ground arith

op_eq_refl : (a : Op) → op_eq a a ≡ true
unfolding op_eq
op_eq_refl (unknown s) = str_eq_refl s
op_eq_refl a = ground arith

caveat_eq_sound : (c d : Caveat) → caveat_eq c d ≡ true → c ≡ d
unfolding caveat_eq
caveat_eq_sound c d h =
    let (p, q) = &&-eq-true _ _ h in
    let (r, s) = &&-eq-true _ _ p in
    let fields = (str_eq_iff c.field d.field).0 r in
    let ops = op_eq_sound c.op d.op s in
    let values = (str_eq_iff c.value d.value).0 q in
    λ i. record { field = fields i; op = ops i; value = values i }

caveat_eq_refl : (c : Caveat) → caveat_eq c c ≡ true
unfolding caveat_eq
caveat_eq_refl c = ground (arith, str_eq_refl c.field, op_eq_refl c.op, str_eq_refl c.value)

-- The caveat narrows every gathered caveat of its field.
abbrev pub NarrowsAll : Platform → List Caveat → Caveat → Type 0
NarrowsAll p acc c = All (λ e. e.field ≡ c.field → narrows p e c ≡ ok true) acc

-- Each caveat of the list is valid, and narrows all that stand before it.
abbrev pub AddedTo : Platform → List Caveat → List Caveat → Type 0
AddedTo p acc [] = Unit {0}
AddedTo p acc (c ∷ cs) = (validate p c ≡ ok tt) × NarrowsAll p acc c × AddedTo p (acc ++ c ∷ []) cs

module _ (p : Platform) where
  narrows_checked_iff :
      (f : Error → Error) (refused : Error) (e c : Caveat)
      → ((wrap f (narrows p e c) >>= λ narrower. guard narrower refused) ≡ ok tt)
        ↔ (narrows p e c ≡ ok true)
  narrows_checked_iff f refused e c = checked (narrows p e c)
    where
      checked :
          (r : Result Error Bool)
          → ((wrap f r >>= λ narrower. guard narrower refused) ≡ ok tt) ↔ (r ≡ ok true)
      checked (ok true) = (λ h. refl, λ h. refl)
      checked (ok false) = (λ h. cc, λ h. cc)
      checked (err x) = (λ h. cc, λ h. cc)

  check_against_iff :
      (f : Error → Error) (refused : Error) (acc : List Caveat) (c : Caveat)
      → (check_against p f refused acc c ≡ ok tt) ↔ NarrowsAll p acc c
  unfolding check_against
  check_against_iff f refused [] c = (λ h. tt, λ h. refl)
  check_against_iff f refused (e ∷ es) c =
      let others = check_against_iff f refused es c in
      by_field (str_eq e.field c.field) (str_eq_iff e.field c.field)
        (narrows_checked_iff f refused e c) others
    where
      by_field :
          {m n : Result Error (Unit {0})} {N Ns : Type 0} (b : Bool)
          → (b ≡ true) ↔ (e.field ≡ c.field)
          → (m ≡ ok tt) ↔ N
          → (n ≡ ok tt) ↔ Ns
          → ((if b then (m >> n) else n) ≡ ok tt) ↔ ((e.field ≡ c.field → N) × Ns)
      by_field true same f g =
          let both = iff_trans (then_iff _ _) (iff_pair f g) in
          (λ h. (λ _. (both.0 h).0, (both.0 h).1), λ k. both.1 (k.0 (same.0 refl), k.1))
      by_field false other f g = (λ h. (λ same. cc (other.1 same), g.0 h), λ k. g.1 k.1)

  check_added_iff : (acc cs : List Caveat) → (check_added p acc cs ≡ ok tt) ↔ AddedTo p acc cs
  unfolding check_added
  check_added_iff acc [] = (λ h. tt, λ h. refl)
  check_added_iff acc (c ∷ cs) =
      let both = iff_trans (then_iff _ _) (
        iff_pair (checked_self (validate p c)) (
          iff_trans (then_iff _ _) (
            iff_pair (check_against_iff incomparable broadens acc c)
              (check_added_iff (acc ++ c ∷ []) cs)))) in
      (λ h. let (a, (b, d)) = both.0 h in (a, b, d), λ (a, b, d). both.1 (a, (b, d)))
    where
      checked_self : (r : Result Error (Unit {0})) → (r ≡ ok tt) ↔ (r ≡ ok tt)
      checked_self r = (λ h. h, λ h. h)

  check_prefix-split :
      (i : ℕ) (cs qs : List Caveat) → check_prefix i cs qs ≡ ok tt → cs ≡ qs ++ drop (length qs) cs
  unfolding check_prefix
  check_prefix-split i cs [] h = refl
  check_prefix-split i [] (q ∷ qs) h = cc
  check_prefix-split i (c ∷ cs) (q ∷ qs) h =
      let (same, rest) = (then_iff _ _).0 h in
      ap₂ ◌∷◌ (caveat_eq_sound c q ((guard_iff _ _).0 same)) (check_prefix-split (suc i) cs qs rest)

  check_prefix-append : (i : ℕ) (qs added : List Caveat) → check_prefix i (qs ++ added) qs ≡ ok tt
  unfolding check_prefix
  check_prefix-append i [] added = refl
  check_prefix-append i (q ∷ qs) added =
      (then_iff _ _).1 ((guard_iff _ _).1 (caveat_eq_refl q), check_prefix-append (suc i) qs added)

  drop-append : (qs added : List Caveat) → drop (length qs) (qs ++ added) ≡ added
  drop-append [] added = refl
  drop-append (q ∷ qs) added = drop-append qs added

  -- The child is the parent with more caveats, each of which narrows all that stand before it.
  pub record IsExtension (m parent : Macaroon) : Type 0 where
    pub same_id : m.identifier ≡ parent.identifier
    pub added : List Caveat
    pub split : m.caveats ≡ parent.caveats ++ added
    pub narrowing : AddedTo p parent.caveats added

  -- `Extends` accepts a child exactly when it has its parent's identifier, and its caveats are the
  -- parent's followed by valid ones, each of which narrows every earlier caveat of its field.
  pub extends_iff : (m parent : Macaroon) → (extends p m parent ≡ ok tt) ↔ IsExtension m parent
  unfolding extends
  extends_iff m parent = (
    λ h.
        let (id, h') = (then_iff _ _).0 h in
        let (_, h'') = (then_iff _ _).0 h' in
        let (pre, post) = (then_iff _ _).0 h'' in
        record {
          same_id = (str_eq_iff _ _).0 ((guard_iff _ _).0 id);
          added = drop (length parent.caveats) m.caveats;
          split = check_prefix-split 0 m.caveats parent.caveats pre;
          narrowing = (check_added_iff _ _).0 post;
        },
    λ e. accepted e,
  )
    where
      accepted : IsExtension m parent → extends p m parent ≡ ok tt
      accepted e = (then_iff _ _).1 (
        (guard_iff _ _).1 ((str_eq_iff _ _).1 e.same_id),
        subst
            (λ cs.
              (guard (leb (length parent.caveats) (length cs)) fewer_caveats
                >> (check_prefix 0 cs parent.caveats
                    >> check_added p parent.caveats (drop (length parent.caveats) cs)))
              ≡ ok tt)
            (sym e.split) (parts e.added e.narrowing),
      )
        where
          parts :
              (added : List Caveat)
              → AddedTo p parent.caveats added
              → (guard
                    (leb (length parent.caveats) (length (parent.caveats ++ added)))
                    fewer_caveats
                  >> (check_prefix 0 (parent.caveats ++ added) parent.caveats
                      >> check_added p parent.caveats
                          (drop (length parent.caveats) (parent.caveats ++ added))))
                ≡ ok tt
          parts added n = (then_iff _ _).1 (
            (guard_iff _ _).1 (ground (arith, length-append parent.caveats added)),
            (then_iff _ _).1 (
              check_prefix-append 0 parent.caveats added,
              rw drop-append ((check_added_iff parent.caveats added).1 n),
            ),
          )

module _ (p : Platform) (ctx : Dict Str) where
  all_satisfied-append :
      (cs ds : List Caveat)
      → (all_satisfied p ctx (cs ++ ds) ≡ ok tt)
        ↔ ((all_satisfied p ctx cs ≡ ok tt) × (all_satisfied p ctx ds ≡ ok tt))
  unfolding all_satisfied
  all_satisfied-append [] ds = (λ h. (refl, h), λ h. h.1)
  all_satisfied-append (c ∷ cs) ds =
      let here = then_iff (satisfied p ctx c) (all_satisfied p ctx (cs ++ ds)) in
      let there = all_satisfied-append cs ds in
      let whole = then_iff (satisfied p ctx c) (all_satisfied p ctx cs) in
      (
        λ h. let (a, b) = here.0 h in let (d, e) = there.0 b in (whole.1 (a, d), e),
        λ h. let (a, b) = whole.0 h.0 in here.1 (a, there.1 (b, h.1)),
      )

  -- Where a macaroon extends another, whatever it permits the other permits too.
  pub extends-authority :
      (m parent : Macaroon)
      → extends p m parent ≡ ok tt
      → satisfies p m ctx ≡ ok tt
      → satisfies p parent ctx ≡ ok tt
  unfolding satisfies
  extends-authority m parent ext h =
      let e = (extends_iff p m parent).0 ext in
      ((all_satisfied-append parent.caveats e.added).0
        (subst (λ cs. all_satisfied p ctx cs ≡ ok tt) e.split h)).0

module _ (p : Platform) where
  AddedTo-append :
      (acc cs ds : List Caveat)
      → AddedTo p acc cs
      → AddedTo p (acc ++ cs) ds
      → AddedTo p acc (cs ++ ds)
  AddedTo-append acc [] ds h k = subst (λ a. AddedTo p a ds) (append-nil acc) k
  AddedTo-append acc (c ∷ cs) ds (v, n, h) k = (
    v,
    n,
    AddedTo-append (acc ++ c ∷ []) cs ds h
        (subst (λ a. AddedTo p a ds) (sym (append_assoc acc (c ∷ []) cs)) k),
  )

  -- An extension of an extension extends the first.
  pub extends_trans :
      (m n k : Macaroon) → extends p m n ≡ ok tt → extends p n k ≡ ok tt → extends p m k ≡ ok tt
  extends_trans m n k mn nk =
      let e = (extends_iff p m n).0 mn in
      let f = (extends_iff p n k).0 nk in
      (extends_iff p m k).1 (record {
        same_id = e.same_id ∙ f.same_id;
        added = f.added ++ e.added;
        split = e.split ∙ ap (λ cs. cs ++ e.added) f.split ∙ append_assoc k.caveats f.added e.added;
        narrowing =
            AddedTo-append k.caveats f.added e.added f.narrowing
              (subst (λ a. AddedTo p a e.added) f.split e.narrowing);
      })

  -- What `Attenuate` returns: the same macaroon with the new caveat at its end, and the signature
  -- chained over it.
  pub attenuate_inv :
      (m m' : Macaroon) (c : Caveat)
      → attenuate p m c ≡ ok m'
      → (validate p c ≡ ok tt)
        × NarrowsAll p m.caveats c
        × (m' ≡ record m {
          caveats = m.caveats ++ c ∷ [];
          signature = p.hmac m.signature (canonical c);
        })
  unfolding attenuate
  attenuate_inv m m' c h =
      let (_, valid, h') = >>=-eq-ok (validate p c) _ h in
      let (_, checked, done) =
        >>=-eq-ok (check_against p cannot_attenuate does_not_narrow m.caveats c) _ h' in
      (valid, (check_against_iff p _ _ m.caveats c).0 checked, sym (ok_inj done))

  -- Whatever `Attenuate` returns, the key-free check `Extends` accepts as a child of what it was
  -- given.
  pub attenuate-extends :
      (m m' : Macaroon) (c : Caveat) → attenuate p m c ≡ ok m' → extends p m' m ≡ ok tt
  attenuate-extends m m' c h =
      let (valid, narrowing, made) = attenuate_inv m m' c h in
      (extends_iff p m' m).1 (record {
        same_id = ap (λ x. x.identifier) made;
        added = c ∷ [];
        split = ap (λ x. x.caveats) made;
        narrowing = (valid, narrowing, tt);
      })
