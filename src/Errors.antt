-- ===== src/Errors.antt =====
-- The errors of the program. Go has one type of errors, and a message that may wrap another; here
-- each message is a constructor that keeps the data it names.
use kessa.Base.{ℕ, Str}
use kessa.Base.Int.{ℤ}

pub data Error : Type 0 where
  -- internal/policy and internal/macaroon
  missing_version missing_default empty_default_reason empty_field : Error
  unnamed_rule : ℕ → Error
  rule_without_conditions rule_without_reason : Str → Error
  in_rule : Str → Error → Error
  empty_value not_a_scalar unknown_operator : Str → Error
  cannot_attenuate : Error → Error
  does_not_narrow identifier_mismatch fewer_caveats signature_mismatch : Error
  diverges_at : ℕ → Error
  incomparable : Error → Error
  broadens : Error
  missing_context unsatisfied : Str → Error
  -- internal/did and internal/signer
  no_document no_methods no_jwk bad_encoding not_on_curve unsupported_jwk : Error
  wrong_key_size : ℕ → Error
  sign_failed : Error
  -- internal/status
  index_out_of_range : ℤ → Error
  no_authority wrong_list_issuer too_few_bits unsigned_list list_signature_invalid : Error
  no_status_list : Str → Error
  -- internal/credential
  empty_subject empty_issuer unsupported_key unsigned_macaroon no_holder_key empty_nonce : Error
  cannot_encode possession_failed : Error
  bound_key invalid_holder_key : Error → Error
  -- internal/chain
  issuer_mismatch empty_chain : Error
  too_deep : ℕ → Error
  at_hop : ℕ → Error → Error
  unresolved_issuer unresolved_subject bad_holder_key : Error → Error
  issuance_invalid holder_key_mismatch continuity_broken : Error
  not_an_attenuation : Error → Error
  -- internal/audit
  stale_seal out_of_order broken_link hash_mismatch entry_signature_invalid approval_invalid : Error
  cannot_canonicalize : ℕ → Error
  sign_entry_failed : ℕ → Error → Error
  recovery_failed : ℕ → Error → Error
  -- internal/export
  v1_with_credentials v1_with_policy v1_with_signature : Error
  unsupported_version : Str → Error
  bad_carried_policy bad_policy_id : Error → Error
  unsigned_envelope envelope_signature_invalid : Error
  short_chain : ℕ → Error
  wrong_evidence_count : ℕ → ℕ → Error
  missing_credential wrong_record_id substituted : ℕ → Str → Error
  bad_credential_id : ℕ → Error → Error
  chain_invalid : Error → Error
  wrong_principals : Error
  no_policy no_pinned_policy policy_substituted : Error
  rederivation_failed : Error → Error
  policy_denies : Str → Error
  misclassified wrong_rule wrong_policy_version : Error
  exceeds_authority : Error → Error
  wrong_status_count : ℤ → ℕ → Error
  bad_hop : ℕ → Error → Error
  hop_is_revoked : ℕ → ℤ → Error
  no_status_source : Error
  unresolved_authority bad_status_list : Error → Error
  no_possession : Error
  possession_invalid : Error → Error
  no_approval partial_approval : Error
  unresolved_approver bad_approval : Error → Error
  unresolved_signer : Str → Error → Error
  -- internal/enforce
  no_signer no_evaluator no_resolver no_chain : Error
  nonce_too_long signature_too_long approval_too_long : ℕ → Error
  unattributable_chain : Str → Error → Error
  unattributable_possession : Str → ℕ → Error → Error
  bad_evidence : ℕ → Error → Error
  seal_failed durable_write_failed commit_failed record_failed : Error → Error
  log_closed line_not_encoded line_not_written line_not_synced : Error
  log_unreadable log_malformed log_not_opened : Error
  policy_failed exceeds_delegation status_failed : Error → Error
  no_status_configured no_approval_presented : Error
  credential_revoked : ℕ → ℤ → Error
  not_recovered : Error → Error
  other_policy : ℕ → Str → Str → Error
  evidence_not_recovered : Error → Error
