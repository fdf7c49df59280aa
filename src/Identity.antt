-- ===== src/Identity.antt =====
-- internal/identity/identity.go: whom a request comes from. The peer test of package net and the
-- text functions of package strings are parameters, as is the answer of the session's decoder; the
-- warnings in the log are left out.
pub mod Headers
pub mod Tests
use pstonn.Prelude.{
  ℕ, Bool, true, false, not, ◌&&◌, Option, none, some, List, [], ◌∷◌, ◌++◌, Text, codes, text_eq,
  ◌==◌, if◌then◌else◌,
}
use pstonn.Session.{User, is_empty}

-- What is read of net/IP: its parsing of a peer, and the tests of an address. And the functions of
-- package strings.
pub record Outside : Type 0 where
  pub host_of : Text → Option Text
  pub parse_ip : Text → Option Text
  pub is_loopback : Text → Bool
  pub is_private : Text → Bool
  pub is_link_local_unicast : Text → Bool
  pub to_lower : Text → Text
  pub trim_space : Text → Text

-- What the middleware reads of a request.
pub record Request : Type 0 where
  pub remote_addr : Text
  pub remote_email : Text
  pub remote_user : Text
  pub remote_groups : Text
  pub proxy_secret : Text

abbrev pub or_else : Option Text → Text → Text
or_else none d = d
or_else (some h) d = h

abbrev pub is_inside : Outside → Option Text → Bool
is_inside o none = false
is_inside o (some ip) =
    if o.is_loopback ip
    then true
    else (if o.is_private ip then true else o.is_link_local_unicast ip)

unfoldable pub from_trusted_proxy : Outside → Text → Bool
from_trusted_proxy o remote_addr =
    is_inside o (o.parse_ip (or_else (o.host_of remote_addr) remote_addr))

unfoldable pub proxy_presents_secret : Request → Text → Bool
proxy_presents_secret r secret = if is_empty secret then true else text_eq r.proxy_secret secret

-- strings.Split at commas, with the part that is being read.
unfoldable pub split_from : Text → Text → List Text
split_from f [] = f ∷ []
split_from f (c ∷ s) =
    let next = split_from [] s in
    let more = split_from (f ++ c ∷ []) s in if c == 44 then f ∷ next else more

unfoldable pub keep_groups : Outside → List Text → List Text
keep_groups o [] = []
keep_groups o (g ∷ gs) =
    let rest = keep_groups o gs in if is_empty (o.trim_space g) then rest else o.trim_space g ∷ rest

unfoldable pub split_groups : Outside → Text → List Text
unfolding split_from keep_groups
split_groups o raw = keep_groups o (split_from [] raw)

abbrev pub no_user : User
no_user = record { email = []; name = []; groups = [] }

-- The identity of the headers, if they are believed.
unfoldable pub header_user : Outside → Bool → Text → Request → User
unfolding from_trusted_proxy proxy_presents_secret split_groups
header_user o trust_forward_auth secret r =
    let email = o.to_lower (o.trim_space r.remote_email) in
    if trust_forward_auth
      && not (is_empty email)
      && from_trusted_proxy o r.remote_addr
      && proxy_presents_secret r secret
    then record {
      email = email;
      name = o.trim_space r.remote_user;
      groups = split_groups o r.remote_groups;
    }
    else no_user

abbrev pub decoded : User → Option User → User
decoded u none = u
decoded u (some d) = d

-- Middleware: `session` is what the decoder finds in the request, none if there is no decoder.
unfoldable pub identify : Outside → Text → Option User → Bool → Text → Request → User
unfolding header_user
identify o dev_email session trust_forward_auth secret r =
    let u = header_user o trust_forward_auth secret r in
    let v = if is_empty u.email then decoded u session else u in
    if is_empty v.email && not (is_empty dev_email)
    then record { email = dev_email; name = dev_email; groups = codes "user" ∷ codes "admin" ∷ [] }
    else v
