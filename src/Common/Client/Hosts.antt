-- ===== src/Common/Client/Hosts.antt =====
-- What a client is once it is authenticated, and the clients made from it for other hosts.
use text.Mathlib.TextLemmas.{length-append, length-cons, length-nil}
use terraform_provider_datab.Base.{
  ◌≡◌, ◌≢◌, refl, sym, ap, subst, ◌⊎◌, inl, inr, String, ◌<>◌, count, Bool, true, false, not, ◌&&◌,
  ◌||◌, Option, none, some, List, [], ◌∷◌, ◌==◌, has_prefix, has_prefix-append, arith, eq_iff,
  Bool-cases,
}
use terraform_provider_datab.Common.Errors.{Error, ok, err}
use terraform_provider_datab.Common.Client.{
  Authorizer, header, DatabricksClient, fixed_host, client_for_host,
}
use terraform_provider_datab.Common.Client.Providers.{
  Outside, Configured, encode_basic_auth, configure_with_direct_params,
}
use terraform_provider_datab.Common.Client.Authentication.{
  Method, providers, not_configured, tried, try_each, authenticate,
}

abbrev pub has_scheme : String → Bool
has_scheme host = host == "" || (has_prefix host "https://" || has_prefix host "http://")

https-has_scheme : (host : String) → has_scheme ("https://" <> host) ≡ true
https-has_scheme host = elim (Bool-cases ("https://" <> host == "")) [
  | inl e ↦ rw e refl
  | inr e ↦ rw (e, has_prefix-append "https://" host) refl
]

pub fixed_host-has_scheme : (host : String) → has_scheme (fixed_host host) ≡ true
unfolding fixed_host
fixed_host-has_scheme host = elim (Bool-cases (host == "")) [
  | inl e ↦ rw (e, e) refl
  | inr e ↦ elim (Bool-cases (has_prefix host "https://" || has_prefix host "http://")) [
    | inl f ↦ rw (e, f, e, f) refl
    | inr f ↦ rw (e, f) (https-has_scheme host)
  ]
]

module _ (o : Outside) (getenv : String → String) (is_data : Bool) where
  abbrev IsReady : DatabricksClient → Type 0
  IsReady c = ((a : Authorizer) × (c.auth_visitor ≡ some a)) × (has_scheme c.host ≡ true)

  not_configured-fails : (c c' : DatabricksClient) → not_configured o getenv is_data c ≢ (none, c')
  not_configured-fails c c' e = ground arith

  tried-IsReady :
      (out : Configured) (name : String) (next : DatabricksClient → Option Error × DatabricksClient)
      (c' : DatabricksClient)
      → ((c : DatabricksClient) → next c ≡ (none, c') → IsReady c')
      → tried o getenv is_data out name next ≡ (none, c')
      → IsReady c'
  tried-IsReady (err e, c) name next c' ih h = absurd (ground arith)
  tried-IsReady (ok none, c) name next c' ih h = ih c h
  tried-IsReady (ok (some a), c) name next c' ih h =
      subst IsReady (ap (λ r. r.1) h) ((a, refl), fixed_host-has_scheme c.host)

  try_each-IsReady :
      (ms : List (Method o getenv is_data)) (c c' : DatabricksClient)
      → try_each o getenv is_data ms c ≡ (none, c')
      → IsReady c'
  unfolding try_each
  try_each-IsReady [] c c' h = absurd (not_configured-fails c c' h)
  try_each-IsReady ((configure, name) ∷ more) c c' h =
      tried-IsReady (configure c) name _ c' (λ d k. try_each-IsReady more d c' k) h

  -- A client that had no authorizer and authenticates well has one then, its host is empty or has a
  -- scheme, and to authenticate again changes nothing.
  pub authenticate-ready :
      (c c' : DatabricksClient)
      → c.auth_visitor ≡ none
      → authenticate o getenv is_data c ≡ (none, c')
      → ((a : Authorizer) × (c'.auth_visitor ≡ some a))
        × (has_scheme c'.host ≡ true)
        × (authenticate o getenv is_data c' ≡ (none, c'))
  unfolding authenticate
  authenticate-ready c c' fresh h =
      let ((a, e), s) =
        try_each-IsReady (providers o getenv is_data) c c' (rw (fresh, authenticate) at h) in
      ((a, e), s, rw e refl)

abbrev pub authorized : String → String → DatabricksClient → DatabricksClient
authorized auth_type token c = record c {
  host = fixed_host c.host;
  token = token;
  auth_visitor = some (header auth_type token);
}

module _ (o : Outside) (getenv : String → String) (is_data : Bool) where
  authenticate-bearer :
      (c : DatabricksClient)
      → c.auth_visitor ≡ none
      → c.host ≢ ""
      → (not (c.username == "") && not (c.password == "")) ≡ false
      → c.token ≢ ""
      → authenticate o getenv is_data c ≡ (none, authorized "Bearer" c.token c)
  unfolding authenticate try_each configure_with_direct_params
  authenticate-bearer c fresh host plain token =
      let h : (c.host == "") ≡ false = ground (arith, eq_iff c.host "") in
      let t : (c.token == "") ≡ false = ground (arith, eq_iff c.token "") in
      rw (fresh, plain, h, t) refl

  authenticate-basic :
      (c : DatabricksClient)
      → c.auth_visitor ≡ none
      → c.host ≢ ""
      → (not (c.username == "") && not (c.password == "")) ≡ true
      → encode_basic_auth o c.username c.password ≢ ""
      → authenticate o getenv is_data c
        ≡ (none, authorized "Basic" (encode_basic_auth o c.username c.password) c)
  unfolding authenticate try_each configure_with_direct_params
  authenticate-basic c fresh host basic token =
      let h : (c.host == "") ≡ false = ground (arith, eq_iff c.host "") in
      let t : (encode_basic_auth o c.username c.password == "") ≡ false =
        ground (arith, eq_iff (encode_basic_auth o c.username c.password) "") in
      rw (fresh, basic, h, t) refl

  abbrev pub IsAuthorized : DatabricksClient → Authorizer → DatabricksClient → Type 0
  IsAuthorized c a c' = (authenticate o getenv is_data c ≡ (none, c')) × (c'.auth_visitor ≡ some a)

  has_text : (username password : String) → username ≢ "" → username <> (":" <> password) ≢ ""
  has_text String.[] password h e = h refl
  has_text (String.◌∷◌ c s) password h e =
      let k = ap count e in
      absurd (
        omega
          (arith, k, length-append (String.◌∷◌ c s) (":" <> password), length-cons c s, length-nil))

  -- Where base64 gives a text for each text that is not empty: a client that has no authorizer yet, has a
  -- host, and has either a user and a password or a token and no password, authenticates, whatever other
  -- methods are configured, and then sends the header Basic with the base64 of `user:password`, or the
  -- header Bearer with the token; and the client that ClientForHost makes from it for another host that
  -- is not empty, once authenticated, sends that same header, to that host, with a scheme.
  pub client_for_host-authorizer :
      (c : DatabricksClient) (url : String)
      → ((s : String) → s ≢ "" → o.encode s ≢ "")
      → c.auth_visitor ≡ none
      → c.host ≢ ""
      → url ≢ ""
      → (a : Authorizer)
      → ((c.username ≢ "")
          × (c.password ≢ "")
          × (a ≡ header "Basic" (o.encode (c.username <> (":" <> c.password)))))
        ⊎ ((c.token ≢ "") × (c.password ≡ "") × (a ≡ header "Bearer" c.token))
      → (c' d : DatabricksClient) × IsAuthorized c a c'
        × IsAuthorized (client_for_host url c') a d
        × (d.host ≡ fixed_host url)
        × (has_scheme d.host ≡ true)
  client_for_host-authorizer c url encodes fresh host to a (inl (user, password, sends)) =
      let basic : (not (c.username == "") && not (c.password == "")) ≡ true =
        ground (arith, eq_iff c.username "", eq_iff c.password "") in
      let t = encodes (c.username <> (":" <> c.password)) (has_text c.username c.password user) in
      (
        _,
        _,
        (authenticate-basic c fresh host basic t, ap some (sym sends)),
        (
          authenticate-basic (client_for_host url (authorized "Basic" _ c)) refl to basic t,
          ap some (sym sends),
        ),
        refl,
        fixed_host-has_scheme url,
      )
  client_for_host-authorizer c url encodes fresh host to a (inr (token, password, sends)) =
      let plain : (not (c.username == "") && not (c.password == "")) ≡ false =
        ground (arith, eq_iff c.password "") in
      (
        _,
        _,
        (authenticate-bearer c fresh host plain token, ap some (sym sends)),
        (
          authenticate-bearer (client_for_host url (authorized "Bearer" c.token c)) refl to plain
              token,
          ap some (sym sends),
        ),
        refl,
        fixed_host-has_scheme url,
      )
