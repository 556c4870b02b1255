-- ===== src/Wireless/Portal/Login.antt =====
-- The login of src/wireless/portal.rs: its URLs, the billing gate and the order of its requests. A
-- text is the list of its UTF-8 bytes; requests, sleeps and the timer are the parameter `Http`, over a
-- system S. JSON is the parameter of the portal's replies.
pub mod Encoded
pub mod Gate
use gdut_net.Base.{
  ℕ, ◌+◌, ◌-◌, ◌/◌, ◌%◌, String, Bool, true, false, Option, none, some, List, [], ◌∷◌, ◌++◌, ◌&&◌,
  ◌||◌, ◌⊎◌, inl, inr, ltb, leb, ◌==◌, str_eq, if◌then◌else◌, decimal, ◌<+>◌,
}
use gdut_net.Backoff.{from_secs}
use gdut_net.Ipv4.{Ipv4Addr, codes, is_digit, ipv4_text, ◌>>=◌}
use gdut_net.Wireless.Portal.{login_timeout, Json, extract_json}

-- BILLING_SETTLE
abbrev pub billing_settle : ℕ
billing_settle = from_secs 4

-- Letters, digits and `-._~`.
unfoldable pub is_unreserved : ℕ → Bool
unfolding is_digit
is_unreserved b =
    (leb b'A' b && leb b b'Z')
    || (leb b'a' b && leb b b'z')
    || is_digit b
    || b == b'-'
    || b == b'.'
    || b == b'_'
    || b == b'~'

-- A digit of `{b:02X}`.
unfoldable pub hex_digit : ℕ → ℕ
hex_digit d = if ltb d 10 then b'0' + d else b'A' + (d - 10)

unfoldable pub urlencode : List ℕ → List ℕ
unfolding is_unreserved hex_digit
urlencode [] = []
urlencode (b ∷ bs) =
    let rest = urlencode bs in
    if is_unreserved b then b ∷ rest else b'%' ∷ hex_digit (b / 16) ∷ hex_digit (b % 16) ∷ rest

unfoldable pub build_login_url : List ℕ → List ℕ → List ℕ → Ipv4Addr → List ℕ → List ℕ
unfolding urlencode
build_login_url base user pass ip ac_ip =
    base
    ++ codes "?callback=dr1004&login_method=1&user_account="
    ++ urlencode user
    ++ codes "&user_password="
    ++ urlencode pass
    ++ codes "&wlan_user_ip="
    ++ codes (ipv4_text ip)
    ++ codes "&wlan_user_ipv6=&wlan_user_mac=000000000000&wlan_ac_ip="
    ++ urlencode ac_ip
    ++ codes "&wlan_ac_name=&jsVersion=4.1.3&terminal_type=2&lang=zh-cn&v=2041"

-- `==` of texts
abbrev pub same_text : List ℕ → List ℕ → Bool
same_text [] [] = true
same_text (x ∷ xs) (y ∷ ys) = x == y && same_text xs ys
same_text _ _ = false

-- `strip_suffix`
unfoldable pub strip_suffix : List ℕ → List ℕ → Option (List ℕ)
strip_suffix suffix [] = if same_text suffix [] then some [] else none
strip_suffix suffix (c ∷ cs) =
    let rest = strip_suffix suffix cs in
    if same_text suffix (c ∷ cs) then some [] else elim rest [ none ↦ none | some s ↦ some (c ∷ s) ]

unfoldable pub build_operator_url : List ℕ → List ℕ → Bool → Option (List ℕ)
unfolding strip_suffix urlencode
build_operator_url base user confirm = elim (strip_suffix (codes "/login") base) [
  | none ↦ none
  | some parent ↦ some (
      parent
      ++ codes "/custom/operator?callback=dr1003&account="
      ++ urlencode user
      ++ codes "&r="
      ++ codes (if confirm then "1" else "0")
      ++ codes "&jsVersion=4.1.3&lang=en")
]

-- `split_once('?')`
unfoldable pub redact_query : List ℕ → List ℕ
redact_query [] = []
redact_query (c ∷ cs) = let rest = redact_query cs in if c == b'?' then codes "?***" else c ∷ rest

pub data BillingStatus : Type 0 where
  ready confirmation_required rejected malformed : BillingStatus

pub record Response : Type 0 where
  pub status : ℕ
  pub body : String

-- `crate::http::get_async` from a source address, the sleep, and the system in which the timer of a
-- login has won over it.
pub record Http (S : Type 0) : Type 0 where
  pub request : Ipv4Addr → List ℕ → S → Option Response × S
  pub sleep : ℕ → S → S
  pub expires : ℕ → S → Option S

abbrev bad_url : String
bad_url = "Portal login URL must end in /login"

module _ (J : Json) where
  open J use {Value, from_str, get, as_str, as_u64}

  is_text : String → Option String → Bool
  is_text t none = false
  is_text t (some s) = str_eq s t

  is_one : Option ℕ → Bool
  is_one none = false
  is_one (some n) = n == 1

  -- The match on the field result.
  pub billing_result : Option String → BillingStatus
  billing_result none = malformed
  billing_result (some s) =
      if str_eq s "ok" then ready else if str_eq s "fail" then confirmation_required else malformed

  -- The match on the field code, before that on the field result.
  pub billing_code : Option Value → Option Value → BillingStatus
  unfolding billing_result is_text is_one
  billing_code none result = malformed
  billing_code (some code) result =
      if is_text "1" (as_str code) || is_one (as_u64 code)
      then billing_result (result >>= as_str)
      else rejected

  unfoldable pub parse_billing_reply : List ℕ → BillingStatus
  unfolding billing_code
  parse_billing_reply body = elim (from_str (extract_json body)) [
    | none ↦ malformed
    | some v ↦ billing_code (get v "code") (get v "result")
  ]

  module _ {S : Type 0} (http : Http S) (src_ip : Ipv4Addr) where
    unfoldable pub billing_request : List ℕ → S → (String ⊎ BillingStatus) × S
    unfolding parse_billing_reply
    billing_request url s =
        let (reply, s') = http.request src_ip url s in
        (
          elim reply [
            | none ↦ inl "Billing cycle request failed"
            | some r ↦
                if r.status == 200
                then inr (parse_billing_reply (codes r.body))
                else inl ("Billing cycle request returned HTTP " <+> decimal r.status)
          ],
          s',
        )

    -- The login request itself.
    unfoldable pub request_login : List ℕ → S → (String ⊎ Response) × S
    request_login url s =
        let (reply, s') = http.request src_ip url s in
        (elim reply [ none ↦ inl "Portal login request failed" | some r ↦ inr r ], s')

    abbrev not_confirmed : String
    not_confirmed = "Billing cycle confirmation rejected; login deferred"

    -- What follows the answer to the confirmation: the pause and the login, if it was accepted.
    unfoldable pub after_confirm : String ⊎ BillingStatus → List ℕ → S → (String ⊎ Response) × S
    unfolding request_login
    after_confirm (inl e) url s = (inl e, s)
    after_confirm (inr ready) url s = request_login url (http.sleep billing_settle s)
    after_confirm (inr _) url s = (inl not_confirmed, s)

    -- The confirmation, at its URL.
    unfoldable pub confirm_login : Option (List ℕ) → List ℕ → S → (String ⊎ Response) × S
    unfolding billing_request after_confirm
    confirm_login none url s = (inl bad_url, s)
    confirm_login (some confirm) url s =
        let (answer, s') = billing_request confirm s in after_confirm answer url s'

    -- The match of `login_inner` on the first billing status.
    unfoldable pub after_query :
        String ⊎ BillingStatus → Option (List ℕ) → List ℕ → S → (String ⊎ Response) × S
    unfolding confirm_login request_login
    after_query (inl e) confirm url s = (inl e, s)
    after_query (inr ready) confirm url s = request_login url s
    after_query (inr confirmation_required) confirm url s = confirm_login confirm url s
    after_query (inr rejected) confirm url s = (inl "Billing cycle status query rejected", s)
    after_query (inr malformed) confirm url s = (inl "Malformed billing cycle status reply", s)

    -- The login from its three URLs: the query, the confirmation and the login.
    unfoldable pub login_from :
        Option (List ℕ) → Option (List ℕ) → List ℕ → S → (String ⊎ Response) × S
    unfolding billing_request after_query
    login_from none confirm url s = (inl bad_url, s)
    login_from (some query) confirm url s =
        let (answer, s') = billing_request query s in after_query answer confirm url s'

    unfoldable pub login_inner : List ℕ → List ℕ → List ℕ → List ℕ → S → (String ⊎ Response) × S
    unfolding build_operator_url login_from build_login_url
    login_inner base user pass ac_ip s =
        login_from (build_operator_url base user false) (build_operator_url base user true)
          (build_login_url base user pass src_ip ac_ip) s

    unfoldable pub login : List ℕ → List ℕ → List ℕ → List ℕ → S → (String ⊎ Response) × S
    unfolding login_inner
    login base user pass ac_ip s = elim (http.expires login_timeout s) [
      | none ↦ login_inner base user pass ac_ip s
      | some late ↦ (inl "Portal authentication deadline exceeded", late)
    ]
