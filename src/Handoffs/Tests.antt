-- ===== src/Handoffs/Tests.antt =====
-- A collection code, guessed at and used, and the theorems applied to it.
use locoomo_api.Base.{ℕ, ◌+◌, ◌≡◌, refl, none, List, [], ◌∷◌, arith}
use locoomo_api.Effect.{ok, err, invalid_handoff_code}
use locoomo_api.Handoffs.Codes.{
  HandoffCode, HandoffCodes, receiver_collection, rider_pickup, issue, validate, in_transaction,
  latest,
}
use locoomo_api.Handoffs.Codes.Lockout.{guesses, validate-locks}
use locoomo_api.Handoffs.Codes.Once.{
  Call, tries, issues, run as run_calls, issues_for, start, issued, validate-once,
}

-- Any function without a collision among the codes typed in below.
abbrev hash : ℕ → ℕ
hash code = code + 1000

abbrev collection : HandoffCode
collection = record {
  id = 0;
  order_id = 7;
  type = receiver_collection;
  code_hash = hash 123456;
  requested_by_user_id = none;
  expires_at = 600010;
  used_at = none;
  failed_attempts = 0;
  created_at = 10;
}

abbrev one_issued : HandoffCodes
one_issued =
    (in_transaction (issue hash 10 7 receiver_collection none 10 123456)
      (record { handoff_codes = []; next_id = 0; counted = [] })).1

abbrev five_guesses : List (ℕ × ℕ)
five_guesses = (20, 1) ∷ (21, 2) ∷ (22, 3) ∷ (23, 4) ∷ (24, 5) ∷ []

run : ℕ → ℕ
unfolding validate latest guesses
run n = n

four_then_right :
    (in_transaction (validate hash 30 7 receiver_collection 123456) (
      guesses hash 7 receiver_collection ((21, 2) ∷ (22, 3) ∷ (23, 4) ∷ (24, 5) ∷ []) one_issued)).0
    ≡ ok tt
unfolding run
four_then_right = refl

validate-locks_example :
    (in_transaction
      (validate hash 30 7 receiver_collection 123456)
      (guesses hash 7 receiver_collection five_guesses one_issued)).0
    ≡ err invalid_handoff_code
unfolding run
validate-locks_example =
    validate-locks hash 7 receiver_collection one_issued collection five_guesses refl refl
      (omega arith) 30 123456

abbrev one_used : HandoffCodes
one_used = (in_transaction (validate hash 30 7 receiver_collection 123456) one_issued).1

-- A code for the rider, and two guesses at the one that is used up.
abbrev in_between : List Call
in_between =
    tries 33 7 receiver_collection 1
    ∷ issues 32 7 rider_pickup none 10 222222
    ∷ tries 31 7 receiver_collection 123456
    ∷ []

validate-once_example :
    in_transaction
      (validate hash 34 7 receiver_collection 123456)
      (run_calls hash in_between one_used)
    ≡ (err invalid_handoff_code, record (run_calls hash in_between one_used) { counted = [] })
unfolding issues_for run
validate-once_example =
    validate-once hash 30 7 receiver_collection 123456 one_issued one_used
      (issued start 10 7 receiver_collection none 10 123456) refl in_between refl 34 123456
