-- ===== src/Identity/Tests.antt =====
-- A deployment behind a proxy on 10.0.0.2, with no shared secret.
use pstonn.Prelude.{◌≡◌, refl, inl, inr, true, false, none, some, [], Text, codes, text_eq}
use pstonn.Identity.{
  Outside, Request, from_trusted_proxy, proxy_presents_secret, identify, header_user, split_groups,
  split_from, keep_groups,
}
use pstonn.Identity.Headers.{without_headers, untrusted_headers}

-- One private address; texts are left as they are.
abbrev network : Outside
network = record {
  host_of = λ a. none;
  parse_ip = λ a. some a;
  is_loopback = λ a. false;
  is_private = text_eq (codes "10.0.0.2");
  is_link_local_unicast = λ a. false;
  to_lower = λ s. s;
  trim_space = λ s. s;
}

abbrev from_peer : Text → Request
from_peer peer = record {
  remote_addr = peer;
  remote_email = codes "pa@example.com";
  remote_user = codes "Pa";
  remote_groups = codes "user,admin";
  proxy_secret = [];
}

believed :
    (identify network [] none true [] (from_peer (codes "10.0.0.2"))).email ≡ codes "pa@example.com"
unfolding identify header_user from_trusted_proxy proxy_presents_secret split_groups split_from
    keep_groups text_eq
believed = refl

untrusted_headers_example :
    identify network [] none true [] (from_peer (codes "203.0.113.9"))
    ≡ identify network [] none true [] (without_headers (from_peer (codes "203.0.113.9")))
untrusted_headers_example =
    untrusted_headers network [] none true [] (from_peer (codes "203.0.113.9")) refl
      (inr (inl (unfold from_trusted_proxy text_eq in refl)))
