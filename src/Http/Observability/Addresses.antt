-- ===== src/Http/Observability/Addresses.antt =====
-- The address in the log, by clientIP, and the address that the limiter counts on, by ClientIP.
use onyxchat.Base.{
  String, str_eq, eq_iff, false, Option, none, some, ◌≡◌, ◌≢◌, refl, ap, ◌⊎◌, inl, inr, Bool-cases,
  coalesce,
}
use onyxchat.Text.{cut, trim_space}
use onyxchat.Http.Limits
use onyxchat.Http.Observability.{Request, client_ip}

-- The first address of a header, without the spaces around it.
abbrev pub first_address : String → String
first_address xff = trim_space (Limits.first_part xff (cut 44 xff))

host-nonempty_or :
    (host : Option String) (remote : String)
    → host ≢ some ""
    → coalesce host remote ≡ Limits.nonempty_or remote host
host-nonempty_or none remote h = refl
host-nonempty_or (some host) remote h = elim (Bool-cases (str_eq host "")) [
  | inl empty ↦ absurd (h (ap some ((eq_iff host "").0 empty)))
  | inr given ↦ rw given refl
]

-- For an address of the connection whose host is not empty: where X-Forwarded-For is absent or names a
-- first address, the log names the address that ClientIP gives the limiters; where its first address is
-- blank, the log names no address, while ClientIP goes on to X-Real-IP and the connection.
pub client_ip-client_ip :
    (split_host : String → Option String) (r : Request)
    → split_host r.remote_addr ≢ some ""
    → let xff = r.header "X-Forwarded-For" in
      let counted = Limits.client_ip split_host xff (r.header "X-Real-Ip") r.remote_addr in
      (client_ip split_host r ≡ counted)
      ⊎ ((str_eq xff "" ≡ false)
          × (client_ip split_host r ≡ "")
          × (counted ≡ Limits.client_ip split_host "" (r.header "X-Real-Ip") r.remote_addr))
unfolding client_ip Limits.client_ip
client_ip-client_ip split_host r host =
    let xff = r.header "X-Forwarded-For" in
    let direct = host-nonempty_or (split_host r.remote_addr) r.remote_addr host in
    elim (Bool-cases (str_eq xff "")) [
      | inl absent ↦ inl (rw (absent, direct) refl)
      | inr present ↦ elim (Bool-cases (str_eq (first_address xff) "")) [
        | inl blank ↦ inr (
          present,
          rw present ((eq_iff (first_address xff) "").0 blank),
          rw (present, blank) refl,
        )
        | inr named ↦ inl (rw (present, named) refl)
      ]
    ]
