-- ===== src/Relay/Handshake/Admission.antt =====
-- Who gets past the handshake of internal/relay/wss.go.
use text.Mathlib.Text.{◌==◌ as str_eq}
use text.Mathlib.TextEquality.{eq_iff}
use mathlib.Core.Bool.{false≢true}
use modelrelay.Base.{
  ℕ, ◌≤◌, ◌≡◌, ◌≢◌, ◌⊎◌, refl, sym, ap, ◌∙◌, subst, inl, inr, Bool, true, false, not, String,
  Option, none, some, arith, ltb, ◌==◌, ==_iff, any, length, none-some, some-injective, Bool-cases,
  if◌then◌else◌, Result, ok, err, >>=-eq-ok, ok-injective,
}
use modelrelay.Protocol.Frame.{protocol_version}
use modelrelay.Relay.Node.{Node}
use modelrelay.Relay.Registry.{get, try_register}
use modelrelay.Relay.Registry.Identity.{accepted, refused, try_register-Tried}
use modelrelay.Relay.Connection.{RelayState, allocate, accept, conns_put}
use modelrelay.Relay.Connection.History.{allocate-at}
use modelrelay.Store.Certs.{Store, is_cert_revoked}
use modelrelay.Relay.Handshake.{
  agent_origin, max_control_message, Hello, Certificate, Parsed, not_hello, malformed, hello,
  FirstMessage, unread, binary, textual, Connect, Reply, forbidden, nothing, require, parsed_hello,
  read_hello, peer_of, agent_identity_uri, cert_identity_matches, check_peer, check_store, node_of,
  register_node, Connected, Setting, settle, checked, handle_connect,
}

require-true : (b : Bool) (r : Reply) {u : Unit {0}} → require b r ≡ ok u → b ≡ true
require-true true r h = refl
require-true false r h = cc

if-err {ℓ} :
    {A : Type ℓ} (b : Bool) (r : Reply) (x : Result Reply A) (a : A)
    → (if b then err r else x) ≡ ok a
    → (b ≡ false) × (x ≡ ok a)
if-err true r x a e = cc
if-err false r x a e = (refl, e)

parsed_hello-ok : (m : Parsed) (h : Hello) → parsed_hello m ≡ ok h → m ≡ hello h
unfolding parsed_hello
parsed_hello-ok not_hello h e = cc
parsed_hello-ok malformed h e = cc
parsed_hello-ok (hello g) h e = ap hello (ok-injective e)

read_hello-ok :
    (m : FirstMessage) (h : Hello)
    → read_hello m ≡ ok h
    → (size : ℕ) × (m ≡ textual size (hello h)) × (size ≤ max_control_message)
unfolding read_hello
read_hello-ok unread h e = cc
read_hello-ok binary h e = cc
read_hello-ok (textual size m) h e =
    let (small, good) = if-err (ltb max_control_message size) nothing (parsed_hello m) h e in
    (size, ap (textual size) (parsed_hello-ok m h good), ground arith)

peer_of-ok :
    (peer : Option Certificate) (cert : Certificate) → peer_of peer ≡ ok cert → peer ≡ some cert
unfolding peer_of
peer_of-ok none cert e = cc
peer_of-ok (some c) cert e =
    ap some (ok-injective (if-err (str_eq c.common_name "") _ (ok c) cert e).1)

not-false : (b : Bool) → not b ≡ true → b ≡ false
not-false true e = cc
not-false false e = refl

register_node-reading :
    (timeout p : ℕ) (acked : Bool) (n : Node) (s : RelayState) (st : Option Store)
    → (register_node timeout p acked n s st).reading ≡ true
    → get (register_node timeout p acked n s st).relay.registry n.id ≡ some p
unfolding register_node accept conns_put
register_node-reading timeout p acked n s st =
    elim (try_register-Tried p (allocate p n s).registry) [
      | refused old done same held up ↦ rw done (λ h. absurd (false≢true h))
      | accepted done heap own others free ↦ rw done (elim (Bool-cases acked) [
        | inl sent ↦ rw sent (λ h.
            subst (λ i. get (try_register p (allocate p n s).registry).0 i ≡ some p)
              (ap (λ m. m.id) (allocate-at p n s)) own)
        | inr lost ↦ rw lost (λ h. absurd (false≢true h))
      ])
    ]

module _ (trim_space path_escape : String → String) where
  -- The certificate names the node, in its common name and, if it has any URI, in one of those too.
  abbrev pub IsIdentity : Certificate → String → Type 0
  IsIdentity cert node_id =
      (cert.common_name ≡ node_id)
      × ((length cert.uris ≡ 0)
          ⊎ (any (λ uri. str_eq uri (agent_identity_uri trim_space path_escape node_id)) cert.uris
              ≡ true))

  cert_identity_matches-IsIdentity :
      (cert : Certificate) (node_id : String)
      → cert_identity_matches trim_space path_escape cert node_id ≡ true
      → IsIdentity cert node_id
  unfolding cert_identity_matches
  cert_identity_matches-IsIdentity cert node_id h = elim (Bool-cases (ltb 0 (length cert.uris))) [
    | inr bare ↦
        let name : str_eq cert.common_name node_id ≡ true = rw (cert_identity_matches, bare) at h in
        ((eq_iff _ _).0 name, inl (ground arith))
    | inl uris ↦
        elim (Bool-cases
          (any (λ uri. str_eq uri (agent_identity_uri trim_space path_escape node_id)) cert.uris)) [
            | inr none_matches ↦
                absurd (false≢true (rw (cert_identity_matches, uris, none_matches) at h))
            | inl one_matches ↦
                let name : str_eq cert.common_name node_id ≡ true =
                  rw (cert_identity_matches, uris, one_matches) at h in
                ((eq_iff _ _).0 name, inr one_matches)
          ]
  ]

  -- What an agent has shown when its connection is read.
  pub record IsShown (c : Connect) (h : Hello) (cert : Certificate) : Type 0 where
    pub origin : c.origin ≡ agent_origin
    pub upgraded : c.upgraded ≡ true
    pub size : ℕ
    pub first : c.first_message ≡ textual size (hello h)
    pub small : size ≤ max_control_message
    pub version : h.protocol ≡ protocol_version
    pub named : trim_space h.node_id ≢ ""
    pub peer : c.peer ≡ some cert
    pub identity : IsIdentity cert h.node_id

  shown :
      (c : Connect) (h : Hello) (cert : Certificate)
      → str_eq c.origin agent_origin ≡ true
      → c.upgraded ≡ true
      → ((size : ℕ) × (c.first_message ≡ textual size (hello h)) × (size ≤ max_control_message))
      → (h.protocol == protocol_version) ≡ true
      → not (str_eq (trim_space h.node_id) "") ≡ true
      → c.peer ≡ some cert
      → cert_identity_matches trim_space path_escape cert h.node_id ≡ true
      → IsShown c h cert
  shown c h cert origin upgraded (size, first, small) version named peer identity = record {
    origin = (eq_iff _ _).0 origin;
    upgraded = upgraded;
    size = size;
    first = first;
    small = small;
    version = (==_iff _ _).0 version;
    named = λ blank. false≢true (sym (not-false _ named) ∙ (eq_iff _ _).1 blank);
    peer = peer;
    identity = cert_identity_matches-IsIdentity cert h.node_id identity;
  }

  check_peer-IsShown :
      (c : Connect) (h : Hello) (cert : Certificate)
      → check_peer trim_space path_escape c ≡ ok (h, cert)
      → IsShown c h cert
  unfolding check_peer
  check_peer-IsShown c h cert e =
      let (_, o, e₁) = >>=-eq-ok (require (str_eq c.origin agent_origin) forbidden) _ e in
      let (_, u, e₂) = >>=-eq-ok (require c.upgraded nothing) _ e₁ in
      let (h', m, e₃) = >>=-eq-ok (read_hello c.first_message) _ e₂ in
      let (_, p, e₄) = >>=-eq-ok (require (h'.protocol == protocol_version) _) _ e₃ in
      let (_, n, e₅) = >>=-eq-ok (require (not (str_eq (trim_space h'.node_id) "")) _) _ e₄ in
      let (cert', q, e₆) = >>=-eq-ok (peer_of c.peer) _ e₅ in
      let (_, i, e₇) =
        >>=-eq-ok (require (cert_identity_matches trim_space path_escape cert' h'.node_id) _) _
          e₆ in
      subst (λ a. IsShown c a.0 a.1) (ok-injective e₇)
        (shown c h' cert' (require-true _ forbidden o) (require-true _ nothing u)
          (read_hello-ok c.first_message h' m) (require-true _ _ p) (require-true _ _ n)
          (peer_of-ok c.peer cert' q) (require-true _ _ i))

  check_store-ok :
      (now : ℕ) (readable writable : Bool) (h : Hello) (cert : Certificate) (st : Option Store)
      (st' : Option Store)
      → check_store now readable writable h cert st ≡ ok st'
      → (old : Store) → st ≡ some old
      → is_cert_revoked old cert.serial ≡ false
  unfolding check_store
  check_store-ok now readable writable h cert none st' e old here = absurd (none-some here)
  check_store-ok now readable writable h cert (some s) st' e old here =
      let (_, a, e₁) = >>=-eq-ok (require readable _) _ e in
      let (_, b, e₂) = >>=-eq-ok (require (not (is_cert_revoked s cert.serial)) _) _ e₁ in
      subst (λ t. is_cert_revoked t cert.serial ≡ false) (some-injective here)
        (not-false _ (require-true _ _ b))

  -- What a connection that is read has gone through.
  pub record IsAdmitted (e : Setting) (c : Connect) (st : Option Store) (r : Connected)
      : Type 0 where
    pub hello : Hello
    pub cert : Certificate
    pub shown : IsShown c hello cert
    pub valid : (old : Store) → st ≡ some old → is_cert_revoked old cert.serial ≡ false
    pub registered : get r.relay.registry hello.node_id ≡ some e.address

  settled-IsAdmitted :
      (e : Setting) (c : Connect) (s : RelayState) (st : Option Store)
      (y : Result Reply (Node × Option Store))
      → checked trim_space path_escape e c st ≡ y
      → (settle trim_space path_escape e s st y).reading ≡ true
      → IsAdmitted e c st (settle trim_space path_escape e s st y)
  unfolding checked node_of
  settled-IsAdmitted e c s st (err reply) done reading = absurd (false≢true reading)
  settled-IsAdmitted e c s st (ok (n, st')) done reading =
      let ((h, cert), a, e₁) = >>=-eq-ok (check_peer trim_space path_escape c) _ done in
      let (st₂, b, e₂) = >>=-eq-ok (check_store e.now e.readable e.writable h cert st) _ e₁ in
      record {
        hello = h;
        cert = cert;
        shown = check_peer-IsShown c h cert a;
        valid = check_store-ok e.now e.readable e.writable h cert st st₂ b;
        registered =
            subst
              (λ i.
                get (register_node e.timeout e.address e.acked n s st').relay.registry i
                ≡ some e.address)
              (ap (λ m. m.0.id) (sym (ok-injective e₂)))
              (register_node-reading e.timeout e.address e.acked n s st' reading);
      }

  -- A connection is read only if it came with the agents' origin and began with a hello of this
  -- protocol version, not over the limit and with an id that is not blank; if its certificate names
  -- that id, in the common name and, where it has URIs, in one of them; and if the store, where there
  -- is one, does not have the certificate as revoked. Then the id leads to the connection's new node.
  pub handle_connect-IsAdmitted :
      (e : Setting) (c : Connect) (s : RelayState) (st : Option Store)
      → (handle_connect trim_space path_escape e c s st).reading ≡ true
      → IsAdmitted e c st (handle_connect trim_space path_escape e c s st)
  unfolding handle_connect
  handle_connect-IsAdmitted e c s st reading =
      settled-IsAdmitted e c s st (checked trim_space path_escape e c st) refl reading
