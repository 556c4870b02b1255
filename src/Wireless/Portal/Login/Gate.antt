-- ===== src/Wireless/Portal/Login/Gate.antt =====
-- The billing gate in front of the login.
use gdut_net.Base.{
  ℕ, String, ◌≡◌, ◌⊎◌, inl, inr, refl, sym, Bool, true, false, Option, none, some, List,
}
use gdut_net.Ipv4.{Ipv4Addr}
use gdut_net.Wireless.Portal.{Json}
use gdut_net.Wireless.Portal.Login.{
  BillingStatus, ready, confirmation_required, rejected, malformed, Http, build_operator_url,
  build_login_url, billing_request, after_confirm, confirm_login, after_query, login_from,
  login_inner,
}

module _ (J : Json) {S : Type 0} (http : Http S) (src_ip : Ipv4Addr) (base user : List ℕ) where
  -- One of the two URLs of the billing gate.
  abbrev pub IsOperator : List ℕ → Type 0
  IsOperator url = (confirm : Bool) × (build_operator_url base user confirm ≡ some url)

  -- The confirmation is needed, and accepted.
  abbrev pub Confirmed : String ⊎ BillingStatus → S → Type 0
  Confirmed answer s =
      (answer ≡ inr confirmation_required)
      × (confirm : List ℕ) × (build_operator_url base user true ≡ some confirm)
      × ((billing_request J http src_ip confirm s).0 ≡ inr ready)

  -- The gate is open: the query says so, or asks for a confirmation that is accepted.
  abbrev pub GateOpen : S → Type 0
  GateOpen s =
      (query : List ℕ) × (build_operator_url base user false ≡ some query)
      × (let (answer, s') = billing_request J http src_ip query s in
          (answer ≡ inr ready) ⊎ Confirmed answer s')

  -- What holds through the gate's requests and the pause.
  abbrev pub IsKept : (S → Type 0) → Type 0
  IsKept P =
      ((url : List ℕ) (s : S) → IsOperator url → P s → P (http.request src_ip url s).1)
      × ((d : ℕ) (s : S) → P s → P (http.sleep d s))

  billing_kept :
      (P : S → Type 0)
      → IsKept P
      → (url : List ℕ) (s : S) → IsOperator url
      → P s
      → P (billing_request J http src_ip url s).1
  unfolding billing_request
  billing_kept P kept url s o p = kept.0 url s o p

  answered :
      (P : S → Type 0) (b : String ⊎ BillingStatus) (url : List ℕ) (s : S)
      → ¬ (b ≡ inr ready)
      → P s
      → P (after_confirm J http src_ip b url s).1
  unfolding after_confirm
  answered P (inl e) url s shut p = p
  answered P (inr ready) url s shut p = absurd (shut refl)
  answered P (inr confirmation_required) url s shut p = p
  answered P (inr rejected) url s shut p = p
  answered P (inr malformed) url s shut p = p

  confirm_kept :
      (P : S → Type 0) (o : Option (List ℕ)) (url : List ℕ) (s : S)
      → IsKept P
      → o ≡ build_operator_url base user true
      → ¬ Confirmed (inr confirmation_required) s
      → P s
      → P (confirm_login J http src_ip o url s).1
  unfolding confirm_login
  confirm_kept P none url s kept e shut p = p
  confirm_kept P (some c) url s kept e shut p =
      let (b, s') = billing_request J http src_ip c s in
      answered P b url s' (λ opens. shut (refl, c, sym e, opens))
        (billing_kept P kept c s (true, sym e) p)

  after_kept :
      (P : S → Type 0) (a : String ⊎ BillingStatus) (url : List ℕ) (s : S)
      → IsKept P
      → ¬ ((a ≡ inr ready) ⊎ Confirmed a s)
      → P s
      → P (after_query J http src_ip a (build_operator_url base user true) url s).1
  unfolding after_query
  after_kept P (inl e) url s kept shut p = p
  after_kept P (inr ready) url s kept shut p = absurd (shut (inl refl))
  after_kept P (inr confirmation_required) url s kept shut p =
      confirm_kept P (build_operator_url base user true) url s kept refl (λ c. shut (inr c)) p
  after_kept P (inr rejected) url s kept shut p = p
  after_kept P (inr malformed) url s kept shut p = p

  query_kept :
      (P : S → Type 0) (o : Option (List ℕ)) (url : List ℕ) (s : S)
      → IsKept P
      → o ≡ build_operator_url base user false
      → ¬ GateOpen s
      → P s
      → P (login_from J http src_ip o (build_operator_url base user true) url s).1
  unfolding login_from
  query_kept P none url s kept e shut p = p
  query_kept P (some query) url s kept e shut p =
      let (a, s') = billing_request J http src_ip query s in
      after_kept P a url s' kept (λ opens. shut (query, sym e, opens))
        (billing_kept P kept query s (false, sym e) p)

  -- The password goes out only through an open gate: where the billing query is not answered as
  -- ready, nor its confirmation accepted, whatever holds through the two requests of the gate and
  -- the pause, such as that no URL with the password was requested, also holds after the login.
  pub login_gated :
      (P : S → Type 0) (pass ac_ip : List ℕ) (s : S)
      → IsKept P
      → ¬ GateOpen s
      → P s
      → P (login_inner J http src_ip base user pass ac_ip s).1
  unfolding login_inner
  login_gated P pass ac_ip s kept shut p =
      query_kept P (build_operator_url base user false)
        (build_login_url base user pass src_ip ac_ip) s kept refl shut p
