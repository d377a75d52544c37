-- ===== src/Http/ClientIp.antt =====
-- internal/httpx/respond.go: ClientIP. A header that is not there is empty.
use cb_back.Prelude.{Bool, not, Option, none, some, Text, null, if◌then◌else◌}
use cb_back.Prelude.Strings.{trim_space, cut}

pub record Addressed : Type 0 where
  pub forwarded_for : Text
  pub real_ip : Text
  pub remote_address : Text

abbrev first_of : Text → Option (Text × Text) → Text
first_of header none = header
first_of header (some (first, rest)) = first

-- The first entry of X-Forwarded-For, or else X-Real-IP.
abbrev pub proxied : Addressed → Text
proxied r =
    let first = trim_space (first_of r.forwarded_for (cut 44 r.forwarded_for)) in
    if not (null first) then first else trim_space r.real_ip

-- `split_host_port` is net.SplitHostPort down to the host.
unfoldable pub client_ip : (Text → Option Text) → Bool → Addressed → Text
client_ip split_host_port trust_proxy r =
    let direct : Text = elim (split_host_port r.remote_address) [
      | none ↦ r.remote_address
      | some host ↦ host
    ] in
    if trust_proxy then (if not (null (proxied r)) then proxied r else direct) else direct
