-- ===== src/Rendezvous/Proxy/Request.antt =====
-- rendezvous-proxy/src/lib.rs: the request that `connection_task` opens its WebSocket with.
use siplane.Base.{
  String, ◌≡◌, refl, inl, inr, Bool, true, Option, none, some, List, [], ◌∷◌, arith, ◌==◌,
  if◌then◌else◌, Bool-cases, format,
}
use Prim.Native.Char.{Char, code}
use Prim.Native.String as Text
use Prim.Native.String.append
use siplane.Base.Split.{lacks}
use siplane.Rendezvous.Server.{NewConnection}

abbrev at_sign : Char
at_sign = "@"

-- the text behind the first `@`, if there is one
after_at : String → Option String
after_at Text.[] = none
after_at (Text.◌∷◌ c s) = let rest = after_at s in if code c == code at_sign then some s else rest

-- `ws_authority.find('@')` and `split_at`
pub ws_host : String → String
unfolding after_at
ws_host authority = elim (after_at authority) [ none ↦ authority | some host ↦ host ]

pub record Request : Type 0 where
  pub method : String
  pub headers : List (String × String)
  pub uri : String

-- `parse` gives what `http::Uri` knows of an address: `none` if it is refused, else its authority
-- if it has one. `key` is what `generate_key` gives, `built` whether the builder takes the request.
-- `none` is `WSRequestBuilderError`.
module _ (parse : String → Option (Option String)) (key : String) (built : Request → Bool) where
  request_for : NewConnection → String → Request
  unfolding ws_host
  request_for nc authority = record {
    method = "GET";
    headers =
        ("Host", ws_host authority)
        ∷ ("Connection", "Upgrade")
        ∷ ("Upgrade", "websocket")
        ∷ ("Sec-WebSocket-Version", "13")
        ∷ ("Sec-WebSocket-Key", key)
        ∷ ("Authorization", format ("Bearer " ∷ nc.accept_token ∷ []))
        ∷ [];
    uri = nc.rendezvous_endpoint;
  }

  pub ws_request : NewConnection → Option Request
  unfolding request_for
  ws_request nc = elim (parse nc.rendezvous_endpoint) [
    | none ↦ none
    | some none ↦ none
    | some (some authority) ↦ let r = request_for nc authority in if built r then some r else none
  ]

after_at-lacks : (s : String) → lacks at_sign s ≡ true → after_at s ≡ none
unfolding after_at
after_at-lacks Text.[] h = refl
after_at-lacks (Text.◌∷◌ c s) h = elim (Bool-cases (code c == code at_sign)) [
  | inl e ↦ absurd (ground arith)
  | inr e ↦ rw e (after_at-lacks s (ground arith))
]

after_at-append :
    (user host : String)
    → lacks at_sign user ≡ true
    → after_at (Text.◌++◌ user (Text.◌∷◌ at_sign host)) ≡ some host
unfolding after_at
after_at-append Text.[] host h = rw (append.nil (Text.◌∷◌ at_sign host)) (ground arith)
after_at-append (Text.◌∷◌ c s) host h =
    rw (append.cons c s (Text.◌∷◌ at_sign host)) (elim (Bool-cases (code c == code at_sign)) [
      | inl e ↦ absurd (ground arith)
      | inr e ↦ rw e (after_at-append s host (ground arith))
    ])

-- The host that a request names is the authority without what stands before its `@`.
pub ws_host_lem :
    (user host : String)
    → lacks at_sign user ≡ true
    → (lacks at_sign host ≡ true → ws_host host ≡ host)
      × (ws_host (Text.◌++◌ user (Text.◌∷◌ at_sign host)) ≡ host)
unfolding ws_host
ws_host_lem user host h =
    (λ k. rw (ws_host, after_at-lacks host k) refl, rw (ws_host, after_at-append user host h) refl)
