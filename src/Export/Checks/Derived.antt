-- ===== src/Export/Checks/Derived.antt =====
-- The decision of an entry derived again, and the sweep of its status lists.
use kessa.Base.{
  ℕ, suc, ◌-◌, ◌+◌, ap₂, ==_iff, ◌≡◌, ◌≢◌, refl, sym, ap, ◌∙◌, subst, ◌↔◌, str_eq, str_eq_iff,
  str_eq_refl, is_empty, not-is_empty_iff, Bool, true, false, not, Option, some, [], ◌∷◌, length,
  Result, ok, err, ◌>>=◌, guard, require, wrap, if◌then◌else◌, Succeeds, then_iff, iff_trans,
  iff_pair, >>=-eq-ok, guard-eq-ok, wrap-eq-ok, require-eq-ok, ok_inj,
}
use kessa.Base.Int.{ℤ, pos, eq_ℤ, pos_part, neg_part, eq_of_parts}
use kessa.Audit.Data.{Entry}
use kessa.Chain.{Links}
use kessa.Credential.Data.{Credential}
use kessa.Env.{Env}
use kessa.Errors
use kessa.Errors.{Error}
use kessa.Export.{policy_id}
use kessa.Export.Checks.{
  Inputs, same_bool, rederive, has_list, count_lists, hop_revoked, check_hop, check_revocations,
  check_status,
}
use kessa.Policy.{Policy, evaluate}
use kessa.Types.{Decision}

same_bool_iff : (a b : Bool) → (same_bool a b ≡ true) ↔ (a ≡ b)
same_bool_iff true true = (λ h. refl, λ h. refl)
same_bool_iff true false = (λ h. cc, λ h. cc)
same_bool_iff false true = (λ h. cc, λ h. cc)
same_bool_iff false false = (λ h. refl, λ h. refl)

eq_ℤ_iff : (a b : ℤ) → (eq_ℤ a b ≡ true) ↔ (a ≡ b)
unfolding eq_ℤ
eq_ℤ_iff a b =
    let same = ==_iff (pos_part a + neg_part b) (pos_part b + neg_part a) in
    (λ h. eq_of_parts a b (same.0 h), λ h. same.1 (ap₂ ◌+◌ (ap pos_part h) (ap neg_part (sym h))))

module _ (env : Env) where
  -- Step 4.5: the policy that the entry pins, run again, gives the decision that it records.
  pub record IsDerived (carried : Option Policy) (e : Entry) (d : Decision) : Type 0 where
    pub policy : Policy
    pub is_carried : carried ≡ some policy
    pub pinned : policy_id env policy ≡ ok e.policy_id
    pub named : e.policy_id ≢ []
    pub evaluated : evaluate env.platform policy e.action ≡ ok d
    pub allowed : d.allowed ≡ true
    pub consequential : d.consequential ≡ e.decision.consequential
    pub rule : d.rule_fired ≡ e.decision.rule_fired
    pub version : d.policy_version ≡ e.decision.policy_version

  pub rederive_iff :
      (carried : Option Policy) (e : Entry) (d : Decision)
      → (rederive env carried e ≡ ok d) ↔ IsDerived carried e d
  unfolding rederive
  rederive_iff carried e d = (
    λ h.
        let (pol, found, h1) = >>=-eq-ok (require carried Errors.no_policy) _ h in
        let (want, addressed, h2) =
          >>=-eq-ok (wrap Errors.bad_policy_id (policy_id env pol)) _ h1 in
        let (_, named, h3) =
          >>=-eq-ok (guard (not (is_empty e.policy_id)) Errors.no_pinned_policy) _ h2 in
        let (_, pinned, h4) =
          >>=-eq-ok (guard (str_eq e.policy_id want) Errors.policy_substituted) _ h3 in
        let (x, evaluated, h5) =
          >>=-eq-ok (wrap Errors.rederivation_failed (evaluate env.platform pol e.action)) _ h4 in
        let (_, allowed, h6) =
          >>=-eq-ok (guard x.allowed (Errors.policy_denies x.rule_fired)) _ h5 in
        let (_, classed, h7) =
          >>=-eq-ok
            (guard (same_bool x.consequential e.decision.consequential) Errors.misclassified) _
            h6 in
        let (_, ruled, h8) =
          >>=-eq-ok (guard (str_eq x.rule_fired e.decision.rule_fired) Errors.wrong_rule) _ h7 in
        let (_, versioned, made) =
          >>=-eq-ok
            (guard (str_eq x.policy_version e.decision.policy_version) Errors.wrong_policy_version)
            _ h8 in
        subst (IsDerived carried e) (ok_inj made) (record {
          policy = pol;
          is_carried = require-eq-ok _ _ found;
          pinned =
              wrap-eq-ok _ _ addressed
              ∙ ap ok (sym ((str_eq_iff e.policy_id want).0 (guard-eq-ok _ _ pinned)));
          named = (not-is_empty_iff e.policy_id).0 (guard-eq-ok _ _ named);
          evaluated = wrap-eq-ok _ _ evaluated;
          allowed = guard-eq-ok _ _ allowed;
          consequential =
              (same_bool_iff x.consequential e.decision.consequential).0 (guard-eq-ok _ _ classed);
          rule = (str_eq_iff x.rule_fired e.decision.rule_fired).0 (guard-eq-ok _ _ ruled);
          version =
              (str_eq_iff x.policy_version e.decision.policy_version).0 (guard-eq-ok _ _ versioned);
        }),
    λ w. rw (w.is_carried) (
        rw (w.pinned) (
          rw ((not-is_empty_iff e.policy_id).1 w.named, str_eq_refl e.policy_id)
            (rw (w.evaluated) (
              rw (w.allowed) (
                rw ((same_bool_iff d.consequential e.decision.consequential).1 w.consequential) (
                  rw ((str_eq_iff d.rule_fired e.decision.rule_fired).1 w.rule) (
                    rw ((str_eq_iff d.policy_version e.decision.policy_version).1 w.version)
                      refl))))))),
  )

  -- Every hop that publishes a status list reads as not revoked on it.
  abbrev pub AreUnrevoked : Inputs → Links → Type 0
  AreUnrevoked inp [] = Unit {0}
  AreUnrevoked inp (l ∷ ls) =
      (has_list l.credential ≡ true → hop_revoked env inp l.credential ≡ ok false)
      × AreUnrevoked inp ls

  check_hop_iff :
      (inp : Inputs) (hop : ℕ) (c : Credential)
      → (check_hop env inp hop c ≡ ok tt) ↔ (hop_revoked env inp c ≡ ok false)
  unfolding check_hop
  check_hop_iff inp hop c = read (hop_revoked env inp c)
    where
      read :
          (r : Result Error Bool)
          → ((wrap (Errors.bad_hop hop) r >>= λ revoked.
                guard (not revoked) (Errors.hop_is_revoked hop c.status_ref.index))
              ≡ ok tt)
            ↔ (r ≡ ok false)
      read (ok true) = (λ h. cc, λ h. cc)
      read (ok false) = (λ h. refl, λ h. refl)
      read (err x) = (λ h. cc, λ h. cc)

  check_revocations_iff :
      (inp : Inputs) (hop : ℕ) (ls : Links)
      → (check_revocations env inp hop ls ≡ ok tt) ↔ AreUnrevoked inp ls
  unfolding check_revocations
  check_revocations_iff inp hop [] = (λ h. tt, λ h. refl)
  check_revocations_iff inp hop (l ∷ ls) = iff_trans (then_iff _ _) (
      iff_pair (by_list (has_list l.credential) (check_hop_iff inp hop l.credential))
        (check_revocations_iff inp (suc hop) ls))
    where
      by_list :
          {m : Result Error (Unit {0})} {P : Type 0} (b : Bool)
          → (m ≡ ok tt) ↔ P
          → ((if b then m else ok tt) ≡ ok tt) ↔ (b ≡ true → P)
      by_list true f = (λ h _. f.0 h, λ h. f.1 (h refl))
      by_list false f = (λ h k. cc, λ h. refl)

  -- Step 6.
  abbrev pub IsStatusChecked : Inputs → Bool → Entry → Links → Type 0
  IsStatusChecked inp consequential e ls =
      consequential ≡ true
      → (e.decision.status_checked_hops ≡ pos (count_lists ls)) × AreUnrevoked inp ls

  pub check_status_iff :
      (inp : Inputs) (b : Bool) (e : Entry) (ls : Links)
      → Succeeds (check_status env inp b e ls) ↔ IsStatusChecked inp b e ls
  unfolding check_status
  check_status_iff inp false e ls = (λ h k. cc, λ h. (0, refl))
  check_status_iff inp true e ls = (
    λ (n, h) _.
        let (_, counted, h1) =
          >>=-eq-ok
            (guard (eq_ℤ e.decision.status_checked_hops (pos (count_lists ls)))
              (Errors.wrong_status_count e.decision.status_checked_hops (count_lists ls)))
            _ h in
        let (_, swept, _) = >>=-eq-ok (check_revocations env inp 0 ls) _ h1 in
        ((eq_ℤ_iff _ _).0 (guard-eq-ok _ _ counted), (check_revocations_iff inp 0 ls).0 swept),
    λ h.
        let (counted, swept) = h refl in
        (
          length ls - count_lists ls,
          rw ((eq_ℤ_iff e.decision.status_checked_hops (pos (count_lists ls))).1 counted)
              (rw ((check_revocations_iff inp 0 ls).1 swept) refl),
        ),
  )
