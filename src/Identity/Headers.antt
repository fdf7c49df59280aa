-- ===== src/Identity/Headers.antt =====
-- The identity headers are not believed from anybody but the proxy.
use pstonn.Prelude.{◌≡◌, ◌⊎◌, Bool, false, Option, [], Text, arith}
use pstonn.Session.{User}
use pstonn.Identity.{
  Outside, Request, from_trusted_proxy, proxy_presents_secret, header_user, identify,
}

-- The same request without the identity headers.
abbrev pub without_headers : Request → Request
without_headers r = record r { remote_email = []; remote_user = []; remote_groups = [] }

-- In a deployment that does not trust the headers, from a peer that is not a proxy's, or without the
-- shared secret, the headers say nothing: a request is identified as it would be without them, if a
-- blank address stays blank when it is normalised.
pub untrusted_headers :
    (o : Outside) (dev_email : Text) (session : Option User) (trust_forward_auth : Bool)
    (secret : Text) (r : Request)
    → o.to_lower (o.trim_space []) ≡ []
    → (trust_forward_auth ≡ false)
      ⊎ ((from_trusted_proxy o r.remote_addr ≡ false) ⊎ (proxy_presents_secret r secret ≡ false))
    → identify o dev_email session trust_forward_auth secret r
      ≡ identify o dev_email session trust_forward_auth secret (without_headers r)
unfolding identify header_user
untrusted_headers o dev_email session trust_forward_auth secret r blank h = ground arith
