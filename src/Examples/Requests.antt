-- ===== src/Examples/Requests.antt =====
-- A request that is allowed, logged, exported and verified.
use kessa.Base.{
  ◌≡◌, ◌↔◌, refl, sym, ap, Bytes, ◌==◌, ◌&&◌, if◌then◌else◌, Str, codes, str_eq, true, none, some,
  List, [], ◌∷◌, ◌++◌, ok, err,
}
use kessa.Base.Binary.{big_endian, ◌⁀◌}
use kessa.Base.Dict.{Dict, lookup, insert, insert_all}
use kessa.Base.Int.{pos, eq_ℤ}
use kessa.Audit
use kessa.Audit.{
  Log, new_log, genesis_hash, entry_hash, sig_input, last_hash, tip, at_position, seal, commit,
  verify_entries, approval_input,
}
use kessa.Audit.Data.{Entry}
use kessa.Chain
use kessa.Chain.{Link, Links, issuance_input, principals, subjects}
use kessa.Credential.{holder_context, verify_possession, pop_input}
use kessa.Credential.Data.{Pop}
use kessa.Enforce.{classifier, Proxy, Request}
use kessa.Enforce.Decide
use kessa.Enforce.Decide.{decide, evaluate, classified, any_hop_revoked, read_hop}
use kessa.Enforce.Decide.Allowed.{IsWarranted, decide-IsWarranted}
use kessa.Enforce.Handle.{handle, check_evidence_size, evidence_for, draft}
use kessa.Enforce.Handle.Logged.{IsDecided, Handled, handle-Handled}
use kessa.Enforce.Handle.Justified.{logged-IsJustified, inputs_of}
use kessa.Enforce.Handle.History.{IsSound, start, request, Reaches-Grows}
use kessa.Enforce.WriteAhead.{Decoded, at_end, malformed, decoded, WalCodec, persists}
use kessa.Errors
use kessa.Examples.Chains.{grant, granted, verified}
use kessa.Examples.World.{world, point, key, documents, signer-IsGenuine, toy-RefusesEmpty}
use kessa.Export.{
  Export, CredentialRecord, credential_id, policy_id, has, build, carried_id, envelope_input,
  envelope_signing_input, is_v1, verify_envelope, version_2, log_tip,
}
use kessa.Export.Checks.{
  pass, check_status, has_approver, has_approval, check_present, check_allowed, rederive,
  authority_context, terminal, has_list, count_lists, evidence, after_evidence,
}
use kessa.Export.Checks.Justified.{IsJustified}
use kessa.Export.Verify.{Verdict, verify, verify_entry, passes}
use kessa.Export.Verify.Passing.{verify-passes, IsVerified}
use kessa.Export.Records.{IsAddressed}
use kessa.Keys.{resolve_key, first_key, public_key, decode_base64url, verify_signature, keys_equal}
use kessa.Macaroon.{satisfies, satisfied, satisfied_by, all_satisfied}
use kessa.Policy
use kessa.Policy.{Policy}
use kessa.Types.{Action, Decision, stated, context}

-- Everything that no rule speaks of is allowed, and consequential.
abbrev pub open_policy : Policy
open_policy = record {
  version = codes "v1";
  rules = [];
  default = record { allowed = true; consequential = true; reason = codes "fine" };
  default_present = true;
}

abbrev pub post : Action
post = record { type = codes "post"; target = codes "blog"; attributes = []; timestamp = pos 7 }

abbrev pub position : Bytes
position = codes "action" ⁀ big_endian 0 ⁀ genesis_hash

abbrev pub proof : Pop
proof = record {
  nonce = 5 ∷ [];
  signature =
      key 2 ++ (codes "kessa/pop/v2" ⁀ codes "did:worker" ⁀ codes "m1" ⁀ (5 ∷ []) ⁀ position);
}

abbrev pub posting : Request
posting = record {
  chain = some (grant ∷ []);
  action = post;
  pop = proof;
  approver = codes "did:alice";
  approval = key 1 ++ (codes "kessa/action-approval/v2" ⁀ codes "did:worker" ⁀ position);
}

abbrev pub open_id : Str
open_id = codes "kessa/policy-id/v1" ⁀ codes "policy"

abbrev pub allowing : Decision
allowing = record {
  allowed = true;
  consequential = true;
  rule_fired = codes "default";
  policy_version = codes "v1";
  status_checked_hops = pos 0;
  reason = stated (codes "fine");
}

abbrev pub sealed : Entry
sealed = record {
  seq = 0;
  prev_hash = genesis_hash;
  action = post;
  resolved_chain = codes "did:alice" ∷ codes "did:worker" ∷ [];
  chain_credential_ids =
      (codes "kessa/credential-id/v1" ⁀ (codes "did:worker" ++ codes "did:alice")) ∷ [];
  decision = allowing;
  policy_id = open_id;
  pop_nonce = proof.nonce;
  pop_signature = proof.signature;
  approved_by = codes "did:alice";
  approval = posting.approval;
  timestamp = pos 9;
  entry_hash = codes "kessa/audit-entry/v2" ⁀ genesis_hash;
  signature = key 3 ++ (codes "kessa/audit-sig/v1" ⁀ (codes "kessa/audit-entry/v2" ⁀ genesis_hash));
}

abbrev pub record_of_grant : CredentialRecord
record_of_grant = record {
  credential_id = codes "kessa/credential-id/v1" ⁀ (codes "did:worker" ++ codes "did:alice");
  credential = granted;
  issuer_proof = grant.issuer_proof;
}

-- A durable log that knows how to write the record of the request.
unfoldable pub read_line : Bytes → Decoded
read_line [] = at_end
read_line (b ∷ []) = malformed
read_line (b ∷ (c ∷ rest)) =
    if b == b'1' && c == 10
    then decoded (record { entry = sealed; credentials = record_of_grant ∷ [] }) rest
    else malformed

abbrev pub lines_codec : WalCodec
lines_codec = record {
  encode = λ r. if str_eq r.entry.signature sealed.signature then some (b'1' ∷ []) else none;
  decode = read_line;
}

abbrev pub fresh : Proxy
fresh = record {
  enforcement_point = point;
  evaluator = classifier open_policy;
  carried_policy = some open_policy;
  policy_id = open_id;
  dids = documents;
  status = some (λ url. err Errors.no_status_source);
  log = record { signer = point; entries = [] };
  set = [];
  wal = some (record { is_open = true; content = []; recovered = []; codec = lines_codec });
}

decided : decide world fresh posting (grant ∷ []) granted 0 genesis_hash ≡ allowing
unfolding decide evaluate classified Policy.evaluate context satisfies satisfied satisfied_by
    authority_context holder_context insert_all insert lookup any_hop_revoked has_list
    Decide.verify_approval Audit.verify_approval approval_input resolve_key first_key public_key
    decode_base64url verify_signature str_eq big_endian all_satisfied Decide.allow
decided = refl

pub found :
    evidence_for world [] 0 [] (grant ∷ [])
    ≡ ok (record_of_grant ∷ [], record_of_grant.credential_id ∷ [])
unfolding evidence_for credential_id has lookup
found = refl

pub sized_lem : check_evidence_size posting ≡ ok tt
unfolding check_evidence_size big_endian
sized_lem = refl

possessed : verify_possession world granted proof post 0 genesis_hash ≡ ok tt
unfolding verify_possession pop_input big_endian verify_signature public_key decode_base64url str_eq
possessed = refl

pub sealed_lem :
    seal world
      (record { signer = point; entries = [] })
      (draft fresh posting (grant ∷ []) (record_of_grant.credential_id ∷ []) allowing (pos 9))
    ≡ ok sealed
unfolding seal tip entry_hash sig_input draft principals last_hash big_endian
sealed_lem = refl

pub at_tip :
    (verify_possession world granted posting.pop posting.action (tip fresh.log).0 (tip fresh.log).1
      ≡ ok tt)
    × (allowing
        ≡ decide world fresh posting (grant ∷ []) granted (tip fresh.log).0 (tip fresh.log).1)
    × (terminal (grant ∷ []) ≡ some granted)
unfolding tip last_hash terminal
at_tip = (possessed, sym decided, refl)

abbrev pub decision_of :
    IsDecided world fresh posting (grant ∷ []) (pos 9) allowing sealed (record_of_grant ∷ [])
decision_of = record {
  ids = record_of_grant.credential_id ∷ [];
  actor = granted;
  some_links = refl;
  sized = sized_lem;
  verified = verified;
  found = found;
  is_actor = at_tip.2;
  possessed = at_tip.0;
  decided = at_tip.1;
  sealed = sealed_lem;
}

abbrev pub set_after : Dict CredentialRecord
set_after = (record_of_grant.credential_id, record_of_grant) ∷ []

abbrev pub exported : Export
exported = record {
  version = version_2;
  signer = codes "did:point";
  entries = sealed ∷ [];
  credentials = set_after;
  policy = some open_policy;
  envelope_signature =
      key 3
      ++ (codes "kessa/audit-export-envelope/v2"
          ⁀ version_2
          ⁀ codes "did:point"
          ⁀ open_id
          ⁀ big_endian 1
          ⁀ sealed.entry_hash);
}

built : build world point (sealed ∷ []) set_after (some open_policy) ≡ ok exported
unfolding build carried_id policy_id envelope_input envelope_signing_input log_tip last_hash
    big_endian
built = refl

pinned : policy_id world open_policy ≡ ok open_id
unfolding policy_id
pinned = refl

addressed : credential_id world granted ≡ ok record_of_grant.credential_id
unfolding credential_id
addressed = refl

looked_up : lookup record_of_grant.credential_id set_after ≡ some record_of_grant
unfolding lookup str_eq
looked_up = refl

handle-Handled_example :
    Handled world fresh posting
      (pos 9)
      persists
      (handle world fresh posting (pos 9) persists).0
      (handle world fresh posting (pos 9) persists).1
handle-Handled_example = handle-Handled world fresh posting (pos 9) persists

decide-IsWarranted_example :
    IsWarranted world fresh posting
      (grant ∷ [])
      granted
      0
      genesis_hash
      (decide world fresh posting (grant ∷ []) granted 0 genesis_hash)
decide-IsWarranted_example =
    decide-IsWarranted world fresh posting (grant ∷ []) granted 0 genesis_hash
      (ap (λ d. d.allowed) decided)

logged-IsJustified_example : IsJustified world exported sealed (inputs_of world fresh)
logged-IsJustified_example =
    logged-IsJustified world fresh posting (grant ∷ []) (pos 9) allowing sealed
      (record_of_grant ∷ []) open_policy exported decision_of refl pinned (λ e. cc) refl
      ((record_of_grant, looked_up, refl, addressed, refl), tt) toy-RefusesEmpty (λ h. cc) refl

empty_log : verify_entries world point.public [] ≡ ok tt
unfolding verify_entries
empty_log = refl

empty_set : IsAddressed world []
unfolding lookup
empty_set id rec h = cc

sound : IsSound world fresh
sound = record {
  genuine = signer-IsGenuine (codes "did:point") 3;
  verified = empty_log;
  addressed = λ id rec h. empty_set id rec h;
}

Reaches-Grows_example :
    IsSound world (handle world fresh posting (pos 9) persists).0
    × ((handle world fresh posting (pos 9) persists).0.log.signer ≡ point)
    × ((es : List Entry) × ((handle world fresh posting (pos 9) persists).0.log.entries ≡ es))
Reaches-Grows_example =
    Reaches-Grows world fresh (handle world fresh posting (pos 9) persists).0 sound
      (request start posting (pos 9) persists)

abbrev verdict : Verdict
verdict = record {
  evidence_carried = true;
  fatal = none;
  results = record { seq = 0; outcome = pass (codes "did:alice" ∷ codes "did:worker" ∷ []) 1 } ∷ [];
}

no_hop_revoked : check_status world (inputs_of world fresh) true sealed (grant ∷ []) ≡ ok 1
unfolding check_status eq_ℤ count_lists has_list
no_hop_revoked = refl

exported_lem : verify world exported (inputs_of world fresh) ≡ ok verdict
unfolding verify verify_entry evidence after_evidence check_allowed rederive Policy.evaluate context
    satisfies satisfied satisfied_by all_satisfied authority_context holder_context insert_all
    insert lookup has_list count_lists verify_possession pop_input Audit.verify_approval
    approval_input resolve_key first_key public_key decode_base64url verify_signature keys_equal
    str_eq big_endian verify_entries entry_hash sig_input verify_envelope carried_id policy_id
    credential_id envelope_input envelope_signing_input log_tip last_hash is_v1 principals subjects
    terminal Chain.verify Chain.check_hop Chain.check_issuance Chain.check_holder Chain.check_parent
    issuance_input eq_ℤ Audit.check_entry has_approver has_approval check_present
exported_lem = refl

passed : passes verdict ≡ true
unfolding passes
passed = refl

verify-passes_example :
    ((v : Verdict) × (verify world exported (inputs_of world fresh) ≡ ok v) × (passes v ≡ true))
    ↔ IsVerified world exported (inputs_of world fresh)
verify-passes_example = verify-passes world exported (inputs_of world fresh)

exported-IsVerified : IsVerified world exported (inputs_of world fresh)
exported-IsVerified =
    (verify-passes world exported (inputs_of world fresh)).0 (verdict, exported_lem, passed)
