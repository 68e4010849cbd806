-- ===== src/Examples/Chains.antt =====
-- Chains at concrete credentials.
use kessa.Base.{
  ◌↔◌, ◌≤◌, All, trim_space, length, ◌≡◌, ◌≢◌, refl, Str, codes, str_eq, none, some, [], ◌∷◌, ◌++◌,
  ok, arith,
}
use kessa.Base.Int.{pos}
use kessa.Chain
use kessa.Chain.{Link, Links, sign_issuance, principals, issuance_input}
use kessa.Credential.Data.{Credential}
use kessa.Base.Dict.{Dict, lookup}
use kessa.Chain.Hops.{IsChain, IsBound, verify-IsChain}
use kessa.Chain.Authority.{Permits, verify-authority}
use kessa.Chain.Issuance.{verify-sign_issuance}
use kessa.Macaroon.Delegation.{extends}
use kessa.Examples.World.{toy, world, worker, point, key, documents, signer-IsGenuine}
use kessa.Keys.{resolve_key, first_key, public_key, decode_base64url, verify_signature, keys_equal}
use kessa.Macaroon.{
  Caveat, Macaroon, eq, validate, narrows, satisfies, satisfied, satisfied_by, all_satisfied,
}

abbrev pub limit : Caveat
limit = record { field = codes "action.type"; op = eq; value = codes "post" }

-- What alice lets the worker do: any action of the type `post`.
abbrev pub granted : Credential
granted = record {
  subject = codes "did:worker";
  issuer = codes "did:alice";
  macaroon = record {
    location = codes "here";
    identifier = codes "m1";
    caveats = limit ∷ [];
    signature = key 9;
  };
  status_ref = record { list_url = []; index = pos 0; issuer = [] };
  holder_key = some (record { kty = codes "OKP"; crv = codes "Ed25519"; x = key 2; y = [] });
  vc_wrapper = none;
}

abbrev pub grant : Link
grant = record {
  credential = granted;
  issuer_proof =
      key 1 ++ (codes "kessa/issuance/v2" ++ (0 ∷ (codes "did:worker" ++ codes "did:alice")));
}

pub verified : Chain.verify world documents (grant ∷ []) ≡ ok tt
unfolding Chain.verify Chain.check_hop Chain.check_issuance Chain.check_holder Chain.check_parent
    issuance_input resolve_key first_key public_key decode_base64url verify_signature keys_equal
    str_eq
verified = refl

-- The context of a post.
abbrev post_context : Dict Str
post_context = (codes "action.type", codes "post") ∷ []

verify-IsChain_example : (Chain.verify world documents (grant ∷ []) ≡ ok tt) ↔ (
    ((grant ∷ []) ≢ []) × ((length (grant ∷ []) ≤ 8) × IsChain world documents none (grant ∷ [])))
verify-IsChain_example = verify-IsChain world documents (grant ∷ [])

-- The worker hands a narrower authority on to the point.
abbrev night_only : Caveat
night_only = record { field = codes "target"; op = eq; value = codes "blog" }

abbrev handed : Credential
handed = record {
  subject = codes "did:point";
  issuer = codes "did:worker";
  macaroon = record {
    location = codes "here";
    identifier = codes "m1";
    caveats = limit ∷ night_only ∷ [];
    signature = key 8;
  };
  status_ref = record { list_url = []; index = pos 0; issuer = [] };
  holder_key = some (record { kty = codes "OKP"; crv = codes "Ed25519"; x = key 3; y = [] });
  vc_wrapper = none;
}

abbrev handing : Link
handing = record {
  credential = handed;
  issuer_proof =
      key 2 ++ (codes "kessa/issuance/v2" ++ (0 ∷ (codes "did:point" ++ codes "did:worker")));
}

narrower : extends world.platform handed.macaroon granted.macaroon ≡ ok tt
unfolding extends validate narrows str_eq trim_space kessa.Macaroon.Delegation.caveat_eq
narrower = refl

signed_on : sign_issuance world worker handed ≡ ok handing.issuer_proof
unfolding sign_issuance issuance_input str_eq
signed_on = refl

published : resolve_key toy documents (codes "did:worker") ≡ ok worker.public
unfolding resolve_key first_key public_key decode_base64url str_eq
published = refl

published_on : resolve_key toy documents (codes "did:point") ≡ ok point.public
unfolding resolve_key first_key public_key decode_base64url str_eq
published_on = refl

parsed :
    public_key toy (record { kty = codes "OKP"; crv = codes "Ed25519"; x = key 3; y = [] })
    ≡ ok point.public
unfolding public_key decode_base64url str_eq
parsed = refl

bound : IsBound world documents handed
bound = record {
  key = point.public;
  jwk = record { kty = codes "OKP"; crv = codes "Ed25519"; x = key 3; y = [] };
  held = refl;
  parsed = parsed;
  published = published_on;
}

abbrev delegated : Links
delegated = grant ∷ handing ∷ []

two_hops : Chain.verify world documents delegated ≡ ok tt
two_hops =
    verify-sign_issuance world documents [] grant worker handed handing.issuer_proof verified
      (omega arith) (signer-IsGenuine (codes "did:worker") 2) published refl bound narrower
      signed_on

-- The context of a post to the blog.
abbrev blog_context : Dict Str
blog_context = (codes "target", codes "blog") ∷ post_context

permitted_on : Permits world documents blog_context handed
unfolding satisfies satisfied satisfied_by all_satisfied lookup str_eq
permitted_on = refl

verify-authority_example : All (λ k. Permits world documents blog_context k.credential) delegated
verify-authority_example =
    verify-authority world documents blog_context (grant ∷ []) handing two_hops permitted_on
