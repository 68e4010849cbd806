-- ===== src/Examples/Devices.antt =====
-- Keys of devices: held by a daemon, enrolled, and used to sign; and predictions over a log.
use kessa.Base.{
  ℕ, ◌≡◌, ◌≢◌, ◌≤◌, ◌+◌, ◌↔◌, refl, Bytes, Str, codes, str_eq, true, false, none, some, List, [],
  ◌∷◌, ◌++◌, In, inl, ok, err, is_empty, ◌==◌, arith, Option, if◌then◌else◌,
}
use kessa.Base.Dict.{lookup, insert}
use kessa.Base.Int.{pos}
use kessa.Enroll
use kessa.Enroll.{
  Device, Mapping, Outside, World, provided, no_key, add_credential, enroll, holds, find_by_did,
  devices_of,
}
use kessa.Web.Disk.{complete}
use kessa.Enroll.Order.{IsCeremony, enroll-IsCeremony}
use kessa.Enroll.Uniqueness.{IsUnique, count, empty-IsUnique, add_credential-IsUnique}
use kessa.Examples.Pages.{net, json, empty_disk}
use kessa.Examples.Requests.{
  open_policy, open_id, fresh, posting, allowing, sealed, record_of_grant, decision_of,
}
use kessa.Examples.Chains.{grant}
use kessa.Examples.World.{
  toy, world, key, alice, worker, documents, signer-IsGenuine, toy-DecodesBase64,
}
use kessa.Keys.{Signer, ed25519, to_jwk}
use kessa.Shadow.{Prediction, Summary, export_file, input_of, predict, summarize}
use kessa.Shadow.Replay.{IsDecided-predict}
use kessa.Shadow.Counts.{summarize-AddsUp}
use kessa.Signerd
use kessa.Signerd.{HeldKey, Server, Request, approval, routine, new_keys, answer}
use kessa.Signerd.Client.{
  Codec, Reply, ask_public, ask_sign, to_reply, remote_signer, connect, reply_error, dial,
}
use kessa.Signerd.Client.Broker.{IsCarried, IsReturned, response_to, relayed, dial-relays}
use kessa.Web.{has_byte}
use kessa.Errors.{sign_failed}
use kessa.Signerd.Gates.{IsSigned, handle-owner}
use kessa.Types.{Did, stated}
use kessa.Vc.{
  VerifiableCredential, MarshalVc, IssueOptions, or_now, unsigned, issue, verify, valid,
  signing_input,
}
use kessa.Vc.Issued.{IsWithin, issue-verify}

abbrev marshal : MarshalVc
marshal c = some c.subject

abbrev terms : IssueOptions
terms = record {
  issued_at = some (pos 5);
  expires = some (pos 9);
  extra_types = [];
  verification_method = [];
}

abbrev issued : VerifiableCredential
issued = record {
  context = codes "https://www.w3.org/2018/credentials/v1" ∷ [];
  types = codes "VerifiableCredential" ∷ [];
  issuer = codes "did:alice";
  issuance_date = pos 5;
  expiration_date = some (pos 9);
  subject = codes "grant";
  proof = some (record {
    type = codes "Ed25519Signature2020";
    created = pos 5;
    verification_method = codes "did:alice#key-1";
    proof_purpose = codes "assertionMethod";
    proof_value = key 1 ++ (codes "kessa/vc/v1" ++ (0 ∷ codes "grant"));
  });
}

issued_lem : issue toy marshal alice (some (codes "grant")) terms (pos 7) ≡ ok issued
unfolding issue signing_input unsigned
issued_lem = refl

issue-verify_example :
    (verify toy marshal issued alice.public ≡ ok tt)
    × (issued.issuer ≡ codes "did:alice")
    × ((t : _)
        → (valid issued t ≡ ok tt) ↔ IsWithin (or_now (pos 7) (some (pos 5))) (some (pos 9)) t)
issue-verify_example =
    issue-verify toy marshal alice (some (codes "grant")) terms (pos 7) issued
      (signer-IsGenuine (codes "did:alice") 1) toy-DecodesBase64 issued_lem

abbrev keys : List HeldKey
keys =
    record { signer = some alice; hardware = true; policy = approval }
    ∷ record { signer = some worker; hardware = false; policy = routine }
    ∷ []

abbrev daemon : Server
daemon = record {
  signers = (codes "did:alice", alice) ∷ (codes "did:worker", worker) ∷ [];
  owner = 501;
}

started : new_keys keys 501 ≡ ok daemon
unfolding new_keys Signerd.is_known Signerd.requires_hardware insert str_eq
started = refl

-- Every line asks for one signature.
abbrev decode : Bytes → Option Request
decode b = some (record { op = codes "sign"; did = codes "did:worker"; data_ = codes "hello" })

abbrev peer : Option ℕ
peer = some 501

signs :
    In
      (Signerd.signed (key 2 ++ codes "hello"))
      (Signerd.handle toy decode daemon peer (codes "{}"))
unfolding Signerd.handle Signerd.dispatch answer str_eq lookup
signs = inl refl

handle-owner_example : (peer ≡ some daemon.owner) × IsSigned toy daemon (key 2 ++ codes "hello")
handle-owner_example =
    handle-owner toy daemon decode peer (codes "{}") (key 2 ++ codes "hello") signs

holds_worker : lookup (codes "did:worker") daemon.signers ≡ some worker
unfolding lookup str_eq
holds_worker = refl

-- Messages by name: the two requests of a client, and the two answers to them.
abbrev greeting : Request
greeting = ask_sign (codes "did:worker") (codes "hello")

abbrev public_reply : Reply
public_reply = record {
  is_ok = true;
  error = [];
  sig = [];
  pub_jwk = some (record { kty = codes "OKP"; crv = codes "Ed25519"; x = key 2; y = [] });
  dids = [];
}

abbrev signed_reply : Reply
signed_reply = record {
  is_ok = true;
  error = [];
  sig = key 2 ++ codes "hello";
  pub_jwk = none;
  dids = [];
}

abbrev codec : Codec
codec = record {
  encode_request = λ q. some q.op;
  decode_request = λ b.
      if str_eq b (codes "sign" ++ 10 ∷ [])
      then some greeting
      else some (ask_public (codes "did:worker"));
  encode_reply = λ r. some (if is_empty r.sig then codes "public" else codes "signed");
  decode_reply =
      λ b. if str_eq b (codes "signed" ++ 10 ∷ []) then some signed_reply else some public_reply;
  error_text = λ x. codes "unauthorized";
}

abbrev dialed : Signer
dialed =
    remote_signer codec (connect toy codec daemon (some 501)) (codes "did:worker") (ed25519 (key 2))

asks_public : IsCarried codec (ask_public (codes "did:worker"))
unfolding str_eq has_byte
asks_public = record {
  line = codes "public";
  encoded = refl;
  is_line = record { one = refl; fits = omega arith };
  decoded = refl;
}

asks_sign : IsCarried codec greeting
unfolding str_eq has_byte
asks_sign = record {
  line = codes "sign";
  encoded = refl;
  is_line = record { one = refl; fits = omega arith };
  decoded = refl;
}

gets_public :
    IsReturned codec
      (to_reply codec (response_to toy daemon (some 501) (ask_public (codes "did:worker"))))
unfolding str_eq has_byte to_reply response_to answer lookup to_jwk
gets_public = record {
  line = codes "public";
  encoded = refl;
  is_line = record { one = refl; fits = omega arith };
  decoded = refl;
}

gets_signed : IsReturned codec (to_reply codec (response_to toy daemon (some 501) greeting))
unfolding str_eq has_byte to_reply response_to answer lookup
gets_signed = record {
  line = codes "signed";
  encoded = refl;
  is_line = record { one = refl; fits = omega arith };
  decoded = refl;
}

dial-relays_example :
    (dial toy codec (connect toy codec daemon (some 501)) (codes "did:worker") ≡ (
      if 501 == daemon.owner
      then ok dialed
      else err (reply_error (codec.error_text Signerd.unauthorized))))
    × (dialed.sign (codes "hello")
        ≡ (if 501 == daemon.owner then relayed (worker.sign (codes "hello")) else err sign_failed))
dial-relays_example =
    dial-relays toy codec daemon 501 (codes "did:worker") worker (codes "hello") holds_worker
      toy-DecodesBase64 refl asks_public gets_public asks_sign gets_signed

abbrev guess : Prediction
guess = record {
  source = record { kind = export_file; path = codes "log.json"; index = 0 };
  action = sealed.action;
  consequential = false;
  policy_denies = true;
  matched_rule = codes "default";
  reason = stated (codes "fine");
  policy_version = codes "v1";
  policy_id = open_id;
  actual = some (allowing, false);
}

abbrev totals : Summary
totals = summarize (guess ∷ []) 2

summarize-AddsUp_example :
    (totals.total ≡ 1)
    × (totals.skipped ≡ 2)
    × (totals.consequential + totals.routine ≡ totals.total)
    × (totals.agreed + (totals.under_predicted + totals.over_predicted) ≡ totals.compared)
    × (totals.compared ≤ totals.total)
    × (totals.policy_denied ≤ totals.total)
summarize-AddsUp_example = summarize-AddsUp (guess ∷ []) 2

IsDecided-predict_example :
    (x : Prediction) × (predict toy open_policy open_id (input_of (codes "log.json") sealed) ≡ ok x)
    × (x.actual ≡ some (allowing, true))
IsDecided-predict_example =
    IsDecided-predict world open_policy open_id (codes "log.json") fresh posting (grant ∷ [])
      (pos 9) allowing sealed (record_of_grant ∷ []) refl decision_of

abbrev phone : Device
phone = record {
  did = codes "did:phone";
  credential_id = codes "c1";
  status_url = codes "list";
  status_index = pos 3;
  fingerprint = codes "SHA256:1";
  backend = codes "software";
  tag = [];
  algorithm = codes "P-256";
  enrolled_at = pos 1;
  revoked = false;
}

abbrev laptop : Device
laptop = record phone { did = codes "did:laptop"; status_index = pos 4 }

abbrev before : Mapping
before = (codes "ann", phone ∷ []) ∷ []

abbrev after : Mapping
after = (codes "ann", phone ∷ laptop ∷ []) ∷ []

added : add_credential before (codes "ann") laptop ≡ ok after
unfolding add_credential holds find_by_did lookup insert str_eq
added = refl

first : add_credential [] (codes "ann") phone ≡ ok before
unfolding add_credential find_by_did lookup insert
first = refl

before-IsUnique : IsUnique before
before-IsUnique = (add_credential-IsUnique [] before (codes "ann") phone empty-IsUnique first).0

add_credential-IsUnique_example :
    IsUnique after
    × (count (codes "did:laptop") after ≡ 1)
    × ((other : Did) → codes "did:laptop" ≢ other → count other after ≡ count other before)
    × ((name : Str)
        → lookup name after ≡ (
            if str_eq (codes "ann") name
            then some (devices_of (lookup (codes "ann") before) ++ laptop ∷ [])
            else lookup name before))
add_credential-IsUnique_example =
    add_credential-IsUnique before after (codes "ann") laptop before-IsUnique added

abbrev config : Enroll.Config
config = record {
  identity = codes "ann";
  device_did = codes "did:web:acme.example:phone";
  org_did = codes "did:alice";
  org_signer = alice;
  root_key = key 9;
  identifier = codes "m1";
  location = [];
  caveats = [];
  status_url = codes "list";
  status_index = pos 3;
  root = codes "/srv";
  resolver = some documents;
}

abbrev outside : Outside
outside = record {
  provision = λ did. provided (ed25519 (key 4)) (record {
    algorithm = codes "Ed25519";
    fingerprint = codes "SHA256:4";
    backend = codes "software";
    tag = [];
  });
  confirm = λ k. true;
  deletes_key = true;
  encode_chain = λ ls. some (codes "chain");
  document_write = complete;
  credential_write = complete;
  loads_mapping = true;
  writes_mapping = true;
}

abbrev office : World
office = record { mapping = before; files = empty_disk; credential = none; device_key = no_key }

enroll-IsCeremony_example :
    IsCeremony world net json outside config
      (pos 9)
      office
      (enroll world net json outside config (pos 9) office)
enroll-IsCeremony_example = enroll-IsCeremony world net json outside config (pos 9) office
