-- ===== src/Provider.antt =====
-- internal/provider/provider.go: how a provider's error is classified. An error is the chain of what
-- errors.Is and errors.As walk, outermost first.
use pstonn.Prelude.{ℕ, Bool, true, false, ◌||◌, Option, none, some, List, [], ◌∷◌, if◌then◌else◌}

pub data FailureKind : Type 0 where
  fail_transient fail_rejected fail_unexpected : FailureKind

-- The push-back's particulars, as far as the program decides by them.
pub record Unavailable : Type 0 where
  pub retry_after : ℕ
  pub status : ℕ

-- The sentinels that are told apart, the two error structs, and everything else.
pub data Link : Type 0 where
  canceled session_expired login_form_unrecognised login_off_host login_rejected : Link
  unavailable : Unavailable → Link
  classified : FailureKind → Link
  other_link : Link

abbrev pub is_canceled : Link → Bool
is_canceled canceled = true
is_canceled _ = false

abbrev pub is_session_expired : Link → Bool
is_session_expired session_expired = true
is_session_expired _ = false

abbrev pub is_login_shape : Link → Bool
is_login_shape login_form_unrecognised = true
is_login_shape login_off_host = true
is_login_shape _ = false

abbrev pub is_login_rejected : Link → Bool
is_login_rejected login_rejected = true
is_login_rejected _ = false

-- errors.Is, by the test of one link.
unfoldable pub error_is : (Link → Bool) → List Link → Bool
error_is p [] = false
error_is p (x ∷ xs) = p x || error_is p xs

-- errors.As with an *Unavailable.
unfoldable pub as_unavailable : List Link → Option Unavailable
as_unavailable [] = none
as_unavailable (unavailable u ∷ xs) = some u
as_unavailable (_ ∷ xs) = as_unavailable xs

-- FailureOf's kind.
unfoldable pub failure_of : List Link → FailureKind
failure_of [] = fail_transient
failure_of (classified k ∷ xs) = k
failure_of (_ ∷ xs) = failure_of xs

abbrev pub is_unexpected : FailureKind → Bool
is_unexpected fail_transient = false
is_unexpected fail_rejected = false
is_unexpected fail_unexpected = true

pub record Signal : Type 0 where
  pub ok : Bool
  pub canceled : Bool
  pub expiry : Bool
  pub pushback : Option Unavailable
  pub login_shape : Bool
  pub login_rejected : Bool
  pub unexpected : Bool

-- Classify; a nil error is `none`.
unfoldable pub classify : Option (List Link) → Signal
unfolding error_is as_unavailable failure_of
classify none = record {
  ok = true;
  canceled = false;
  expiry = false;
  pushback = none;
  login_shape = false;
  login_rejected = false;
  unexpected = false;
}
classify (some e) =
    let shape = error_is is_login_shape e in
    let rejected = error_is is_login_rejected e in
    record {
      ok = false;
      canceled = error_is is_canceled e;
      expiry = error_is is_session_expired e;
      pushback = as_unavailable e;
      login_shape = shape;
      login_rejected = if shape then false else rejected;
      unexpected = if shape || rejected then false else is_unexpected (failure_of e);
    }
