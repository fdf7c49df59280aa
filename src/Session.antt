-- ===== src/Session.antt =====
-- internal/session/session.go: the signed session cookie. Here an instant is counted in nanoseconds
-- from the Unix epoch, and the cookies are of times after it.
pub mod Wire
pub mod Expiry
pub mod Tests
use pstonn.Prelude.{
  ℕ, ◌+◌, ◌*◌, ◌/◌, Bool, true, false, not, ◌&&◌, ◌||◌, Option, none, some, List, [], ◌∷◌, ◌++◌,
  Text, Map, text_eq, lookup, insert, ltb, leb, ◌==◌, if◌then◌else◌,
}
use pstonn.Clock.{second, hour, day_length, elapsed}

-- identity.User.
pub record User : Type 0 where
  pub email : Text
  pub name : Text
  pub groups : List Text

-- The group "admin".
abbrev pub admin : Text
admin = 97 ∷ 100 ∷ 109 ∷ 105 ∷ 110 ∷ []

abbrev pub any_is : Text → List Text → Bool
any_is g [] = false
any_is g (h ∷ gs) = text_eq h g || any_is g gs

abbrev pub is_admin : User → Bool
is_admin u = any_is admin u.groups

pub record Payload : Type 0 where
  pub user : User
  pub exp : ℕ
  pub iat : ℕ
  pub ep : ℕ

-- The standard library's part: the keyed MAC of a text under the manager's secret, in base64;
-- base64; JSON; strings.ToLower and strings.TrimSpace.
pub record Codec : Type 0 where
  pub sign : Text → Text
  pub to_base64 : Text → Text
  pub from_base64 : Text → Option Text
  pub marshal : Payload → Option Text
  pub unmarshal : Text → Option Payload
  pub to_lower : Text → Text
  pub trim_space : Text → Text

unfoldable pub normalise : Codec → Text → Text
normalise k s = k.to_lower (k.trim_space s)

-- The secret is the Codec's; `secure` only names the cookie.
pub record Manager : Type 0 where
  pub ttl : ℕ
  pub max_age : ℕ
  pub epochs : Map ℕ

-- New.
unfoldable pub new_manager : Manager
new_manager = record { ttl = 12 * hour; max_age = 7 * day_length; epochs = [] }

unfoldable pub revoke_to : Codec → Manager → Text → ℕ → Manager
unfolding normalise
revoke_to k m email epoch = record m { epochs = insert (normalise k email) epoch m.epochs }

abbrev pub or_zero : Option ℕ → ℕ
or_zero none = 0
or_zero (some n) = n

unfoldable pub epoch_for : Codec → Manager → Text → ℕ
unfolding normalise
epoch_for k m email = or_zero (lookup (normalise k email) m.epochs)

-- time.Time.Unix and time.Unix(x, 0).
abbrev pub unix : ℕ → ℕ
unix t = t / second

abbrev pub from_unix : ℕ → ℕ
from_unix x = x * second

-- '.'
abbrev pub dot : ℕ
dot = 46

-- The value of the cookie for a body.
unfoldable pub seal : Codec → Text → Text
seal k body = k.to_base64 body ++ dot ∷ k.sign (k.to_base64 body)

abbrev pub map_option : (Text → Text) → Option Text → Option Text
map_option f none = none
map_option f (some x) = some (f x)

-- issue: the cookie's value, or none if the payload cannot be marshalled.
unfoldable pub issue : Codec → Manager → ℕ → User → ℕ → Option Text
unfolding epoch_for seal
issue k m now u iat = map_option (seal k) (
    k.marshal
      (record { user = u; exp = unix (now + m.ttl); iat = iat; ep = epoch_for k m u.email }))

-- Issue.
unfoldable pub begin : Codec → Manager → ℕ → User → Option Text
unfolding issue
begin k m now u = issue k m now u (unix now)

abbrev pub prepend : ℕ → Option (Text × Text) → Option (Text × Text)
prepend c none = none
prepend c (some (a, b)) = some (c ∷ a, b)

-- strings.Cut at the first '.'.
unfoldable pub cut : Text → Option (Text × Text)
cut [] = none
cut (c ∷ s) = if c == dot then some ([], s) else prepend c (cut s)

abbrev pub and_then : {A B : Type 0} → Option A → (A → Option B) → Option B
and_then none f = none
and_then (some a) f = f a

-- The payload of a cookie whose signature is right.
unfoldable pub open_cookie : Codec → Text → Option Payload
unfolding cut
open_cookie k value =
    and_then (cut value)
      (λ p. if text_eq p.1 (k.sign p.0) then and_then (k.from_base64 p.0) k.unmarshal else none)

-- How long after its start a session is good for.
unfoldable pub ceiling : Manager → User → ℕ
ceiling m u = if is_admin u then m.ttl else m.max_age

abbrev pub is_empty : Text → Bool
is_empty [] = true
is_empty (c ∷ s) = false

-- What Decode refuses in a payload.
unfoldable pub is_refused : Codec → Manager → ℕ → Payload → Bool
unfolding epoch_for ceiling
is_refused k m now p =
    leb p.exp (unix now)
    || is_empty p.user.email
    || ltb p.ep (epoch_for k m p.user.email)
    || (not (p.iat == 0) && leb (ceiling m p.user) (elapsed now (from_unix p.iat)))

-- Whether Decode renews the cookie, if it has a writer.
unfoldable pub renews : Manager → ℕ → Payload → Bool
renews m now p = not (p.iat == 0) && ltb (elapsed (from_unix p.exp) now) (m.ttl / 2)

-- What Decode makes of the payload of a cookie: the user, and the new value of the cookie if there
-- is one. `writes` says that there is a writer.
unfoldable pub answer : Codec → Manager → ℕ → Bool → Payload → Option (User × Option Text)
unfolding is_refused renews issue
answer k m now writes p =
    if is_refused k m now p
    then none
    else some (p.user, if writes && renews m now p then issue k m now p.user p.iat else none)

-- Decode, on the value of the cookie under the name that the manager reads, if the request has it.
unfoldable pub decode : Codec → Manager → ℕ → Bool → Option Text → Option (User × Option Text)
unfolding open_cookie answer
decode k m now writes cookie =
    and_then cookie (λ value. and_then (open_cookie k value) (answer k m now writes))
