-- ===== src/Chain/Authority.antt =====
-- What the principals of a verified chain are, and what authority they hold.
use kessa.Base.{◌≡◌, refl, sym, ap, ◌∙◌, Option, none, some, [], ◌∷◌, ◌++◌, map, All, ok}
use kessa.Base.Dict.{Dict}
use kessa.Base.{Str}
use kessa.Chain.{Link, Links, verify, subjects, principals, actor}
use kessa.Chain.Hops.{IsChain, hop, Descends, verify-IsChain}
use kessa.Credential.Data.{Credential}
use kessa.Env.{Env}
use kessa.Keys.{Resolver}
use kessa.Macaroon.{satisfies}
use kessa.Macaroon.Delegation.Extension.{extends-authority}
use kessa.Types.{Did}

module _ (env : Env) (r : Resolver) where
  abbrev pub Permits : Dict Str → Credential → Type 0
  Permits ctx c = satisfies env.platform c.macaroon ctx ≡ ok tt

  abbrev PermitsParent : Dict Str → Option Credential → Type 0
  PermitsParent ctx none = Unit {0}
  PermitsParent ctx (some c) = Permits ctx c

  Permits-parent :
      (ctx : Dict Str) (parent : Option Credential) (c : Credential)
      → Descends env r parent c
      → Permits ctx c
      → PermitsParent ctx parent
  Permits-parent ctx none c d h = tt
  Permits-parent ctx (some parent) c d h =
      extends-authority env.platform ctx c.macaroon parent.macaroon d.1 h

  IsChain-authority :
      (ctx : Dict Str) (parent : Option Credential) (ls : Links) (l : Link)
      → IsChain env r parent (ls ++ l ∷ [])
      → Permits ctx l.credential
      → All (λ k. Permits ctx k.credential) (ls ++ l ∷ []) × PermitsParent ctx parent
  IsChain-authority ctx parent [] l (hop _ _ d _) h =
      ((h, tt), Permits-parent ctx parent l.credential d h)
  IsChain-authority ctx parent (k ∷ ls) l (hop _ _ d rest) h =
      let (below, here) = IsChain-authority ctx (some k.credential) ls l rest h in
      ((here, below), Permits-parent ctx parent k.credential d here)

  -- Authority only shrinks down a verified chain: an action context that the last credential
  -- permits is permitted by every credential of the chain.
  pub verify-authority :
      (ctx : Dict Str) (ls : Links) (l : Link)
      → verify env r (ls ++ l ∷ []) ≡ ok tt
      → Permits ctx l.credential
      → All (λ k. Permits ctx k.credential) (ls ++ l ∷ [])
  verify-authority ctx ls l h permitted =
      let (_, (_, chain)) = (verify-IsChain env r (ls ++ l ∷ [])).0 h in
      (IsChain-authority ctx none ls l chain permitted).0

  abbrev issuer_of : Link → Did
  issuer_of l = l.credential.issuer

  IsChain-principals :
      (parent : Option Credential) (l : Link) (ls : Links)
      → IsChain env r parent (l ∷ ls)
      → principals (l ∷ ls) ≡ map issuer_of (l ∷ ls) ++ actor (l ∷ ls) ∷ []
  unfolding principals subjects actor
  IsChain-principals parent l [] h = refl
  IsChain-principals parent l (k ∷ ls) (hop _ _ _ (hop a b d rest)) =
      ap (λ ds. l.credential.issuer ∷ ds)
        (ap (λ s. s ∷ k.credential.subject ∷ subjects ls) (sym d.0)
          ∙ IsChain-principals (some l.credential) k ls (hop a b d rest))

  -- The principals of a verified chain are the issuers of its hops, in order, and the actor: each
  -- hop was issued by the principal that stands before its subject.
  pub verify-principals :
      (ls : Links) → verify env r ls ≡ ok tt → principals ls ≡ map issuer_of ls ++ actor ls ∷ []
  verify-principals [] h = absurd (((verify-IsChain env r []).0 h).0 refl)
  verify-principals (l ∷ ls) h =
      let (_, (_, chain)) = (verify-IsChain env r (l ∷ ls)).0 h in
      IsChain-principals none l ls chain
