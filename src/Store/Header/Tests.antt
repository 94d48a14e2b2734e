-- ===== src/Store/Header/Tests.antt =====
-- A header and a journal line as JSON values.
use true_pad.Base.{◌≡◌, refl, false, some, arith, codes}
use Prim.Native.String.{String}
use true_pad.Direction.{a_to_b}
use true_pad.Codec.Hex.{is_hex_digit}
use true_pad.Json.Tree.{
  Json, string, flag, array, object, no_items, item, Members, no_members, member, value_of,
}
use true_pad.Envelope.{is_hex32, all_hex}
use true_pad.Envelope.Decimal.{is_canonical, all_digits}
use true_pad.Envelope.Decode.{includes}
use true_pad.Store.Head.{HeadV2, fixed, separate_state_file}
use true_pad.Store.Journal.{open_line}
use true_pad.Store.Text.{
  member_count, record_json, parse_journal_record, parse_journal_record-record_json,
}
use true_pad.Store.Header.Shape.{all_own, all_expected, exact_object}
use true_pad.Store.Header.{
  all_declarations, validate_encryption, validate_authentication, validate_fixed, validate_record,
  validate_policy, validate_state_file, validate_rollback, are_attempts, attempts_at,
  validate_verification, validate_parts, validate_head,
}
use true_pad.Store.Header.Sound.{IsHead, validate_head-IsHead}

parse_journal_record-record_json_example :
    parse_journal_record (record_json (codes "2026-01-01") (open_line 3 40 8 0 48 4))
    ≡ some (open_line 3 40 8 0 48 4)
parse_journal_record-record_json_example =
    parse_journal_record-record_json (codes "2026-01-01") (open_line 3 40 8 0 48 4)
      (omega arith, omega arith, omega arith, omega arith, omega arith, omega arith)

abbrev text_member : String → String → Members → Members
text_member key value rest = member (codes key) (string (codes value)) rest

abbrev attempts : Members
attempts = member_count "2" 1 no_members

abbrev head_json : Json
head_json = object (
    member_count "formatVersion" 2 (
      text_member "pairId" "000102030405060708090a0b0c0d0eff" (
        text_member "direction" "A->B" (
          text_member "mode" "bytes" (
            member (codes "sourceDeclarations")
              (array (
                item
                  (object (
                    text_member "name" "dice" (
                      text_member "declaredOrigin" "table"
                        (member_count "lengthBytes" 64 no_members))))
                  no_items))
              (member (codes "encryption")
                (object (member_count "capacity" 100 (member_count "nextOffset" 4 no_members)))
                (member (codes "authentication")
                  (object (
                    text_member "profile" "wc-one-time-v1" (
                      member_count "tagBits" 128 (
                        member_count "capacityRecords" 9 (
                          member_count "nextSequence" 1 (
                            member_count "verifyAttemptLimit" 3 (
                              member_count "maxCiphertextBytes" 1048576
                                (member_count "maxAuthLookahead" 5 no_members))))))))
                  (member (codes "recordPolicy")
                    (object (
                      text_member "authenticated" "required" (
                        member (codes "downgradeAllowed") (flag false) (
                          member (codes "record")
                            (object
                              (text_member "kind" "fixed" (member_count "bytes" 48 no_members)))
                            no_members))))
                    (member (codes "rollback")
                      (object (
                        text_member "witnessClass" "separate-state-file" (
                          member (codes "config") (object (text_member "path" "/w" no_members))
                            no_members)))
                      (member (codes "verification")
                        (object (
                          member (codes "failurePolicy")
                            (object
                              (text_member "kind" "freeze" (member_count "threshold" 7 no_members)))
                            (member_count "failureCount" 2 (
                              member_count "clearedAtFailureCount" 1 (
                                member (codes "perSequenceAttempts") (object attempts)
                                  no_members)))))
                        no_members))))))))))

abbrev read_head : HeadV2
read_head = record {
  pair_id = codes "000102030405060708090a0b0c0d0eff";
  direction = a_to_b;
  encryption = record { capacity = 100; next_offset = 4 };
  authentication = record {
    capacity_records = 9;
    next_sequence = 1;
    verify_attempt_limit = 3;
    max_ciphertext = 1048576;
    max_auth_lookahead = 5;
  };
  record_policy = fixed 48;
  rollback = separate_state_file (codes "/w");
  verification = record {
    threshold = 7;
    failure_count = 2;
    cleared_at_failure_count = 1;
    per_sequence_attempts = attempts_at attempts;
  };
}

head_json-reads : validate_head head_json ≡ some read_head
unfolding validate_head validate_parts validate_encryption validate_authentication validate_fixed
    validate_record validate_policy validate_state_file validate_rollback are_attempts
    validate_verification exact_object all_own all_expected all_declarations value_of includes
    is_hex32 all_hex is_hex_digit is_canonical all_digits
head_json-reads = refl

validate_head-IsHead_example : IsHead read_head
validate_head-IsHead_example = validate_head-IsHead head_json read_head head_json-reads
