-- ===== src/Istio/Xds/Versions.antt =====
-- The versions and nonces that the requests of a client of the pilot carry.
use mesher.Prelude.{
  List, [], ◌∷◌, Option, none, some, Bool, true, false, if◌then◌else◌, ◌≡◌, refl, sym, ap, ◌∙◌,
  Bool-cases, subst, if-cases, inl, inr,
}
use mesher.Prelude.Text.{Text, text_eq}
use mesher.Istio.{XdsClusterInfo, parse_cluster_name}
use mesher.Istio.Registry.{LoadAssignment}
use mesher.Istio.Xds.{
  NodeInfo, XdsType, type_cds, type_eds, type_lds, type_rds, XdsReqCache, XdsClient, empty_cache,
  same_type, DiscoveryRequest, DiscoveryResponse, Stream, Exchange, received, failed, exchange,
  Cluster, VirtualHost, cds, eds, lds, rds, rds_of, set_nonce, set_version_info, type_url,
  discovery_request, new_xds_client,
}

-- A request that was sent, with the response, if one was received.
pub record Entry : Type 0 where
  pub request : DiscoveryRequest
  pub response : Option DiscoveryResponse

abbrev after_response : Option DiscoveryResponse → XdsReqCache → XdsReqCache
after_response none older = older
after_response (some r) older = record { nonce = r.nonce; version_info = r.version_info }

-- The nonce and the version of the newest response to a request of the type, empty if there is none; the
-- log has the newest entry first.
abbrev pub last_response : Text → List Entry → XdsReqCache
last_response url [] = empty_cache
last_response url (e ∷ log) =
    let older = last_response url log in
    if text_eq e.request.type_url url then after_response e.response older else older

-- Every request carries the version and the nonce of the newest response before it to one of its type.
abbrev pub IsAcknowledging : List Entry → Type 0
IsAcknowledging [] = Unit {0}
IsAcknowledging (e ∷ log) =
    (e.request.version_info ≡ (last_response e.request.type_url log).version_info)
    × (e.request.response_nonce ≡ (last_response e.request.type_url log).nonce)
    × IsAcknowledging log

abbrev pub entries : Stream → List DiscoveryRequest → List Entry → List Entry
entries s [] log = log
entries s (r ∷ sent) log = record { request = r; response = s.recv r } ∷ entries s sent log

-- The calls on a new client, each on a stream of its own, with the log of their requests.
pub data Run : XdsClient → List Entry → Type 1 where
  new :
      (addr : Text) (node : NodeInfo) (client : XdsClient)
      → new_xds_client addr node true ≡ some client
      → Run client []
  cds_called :
      {client : XdsClient} {log : List Entry} (unmarshal : Text → Option Cluster) (s : Stream)
      → Run client log
      → Run (cds unmarshal s client).client (entries s (cds unmarshal s client).sent log)
  eds_called :
      {client : XdsClient} {log : List Entry} (unmarshal : Text → Option LoadAssignment)
      (s : Stream) (name : Text)
      → Run client log
      → Run (eds unmarshal s name client).client (entries s (eds unmarshal s name client).sent log)
  lds_called :
      {client : XdsClient} {log : List Entry} {Listener : Type 0}
      (unmarshal : Text → Option Listener) (s : Stream)
      → Run client log
      → Run (lds unmarshal s client).client (entries s (lds unmarshal s client).sent log)
  rds_called :
      {client : XdsClient} {log : List Entry} (unmarshal : Text → Option (List VirtualHost))
      (s : Stream) (name : Text)
      → Run client log
      → Run (rds unmarshal s name client).client (entries s (rds unmarshal s name client).sent log)

record IsCurrent (client : XdsClient) (log : List Entry) : Type 0 where
  caches : (t : XdsType) → client.req_caches t ≡ last_response (type_url t) log
  acknowledging : IsAcknowledging log

type_url_eq : (t u : XdsType) → text_eq (type_url t) (type_url u) ≡ same_type t u
unfolding text_eq
type_url_eq type_cds type_cds = refl
type_url_eq type_cds type_eds = refl
type_url_eq type_cds type_lds = refl
type_url_eq type_cds type_rds = refl
type_url_eq type_eds type_cds = refl
type_url_eq type_eds type_eds = refl
type_url_eq type_eds type_lds = refl
type_url_eq type_eds type_rds = refl
type_url_eq type_lds type_cds = refl
type_url_eq type_lds type_eds = refl
type_url_eq type_lds type_lds = refl
type_url_eq type_lds type_rds = refl
type_url_eq type_rds type_cds = refl
type_url_eq type_rds type_eds = refl
type_url_eq type_rds type_lds = refl
type_url_eq type_rds type_rds = refl

same_type_self : (t : XdsType) → same_type t t ≡ true
same_type_self type_cds = refl
same_type_self type_eds = refl
same_type_self type_lds = refl
same_type_self type_rds = refl

if-same : {A : Type 0} (b : Bool) (x : A) → x ≡ (if b then x else x)
if-same true x = refl
if-same false x = refl

module _ (s : Stream) (t : XdsType) (names : List Text) (client : XdsClient) (log : List Entry)
    (c : IsCurrent client log) where
  sent_entry : Option DiscoveryResponse → Entry
  sent_entry o = record { request = discovery_request client t names; response = o }

  -- The log of a request with what the client has for its type.
  sent_entry-IsAcknowledging : (o : Option DiscoveryResponse) → IsAcknowledging (sent_entry o ∷ log)
  unfolding sent_entry
  sent_entry-IsAcknowledging o =
      (ap (λ x. x.version_info) (c.caches t), ap (λ x. x.nonce) (c.caches t), c.acknowledging)

  sent_entry-caches :
      (r : DiscoveryResponse) (u : XdsType)
      → (received t (discovery_request client t names) client (some r)).client.req_caches u
        ≡ last_response (type_url u) (sent_entry (some r) ∷ log)
  unfolding sent_entry set_nonce set_version_info
  sent_entry-caches r u =
      let new : XdsReqCache = record { nonce = r.nonce; version_info = r.version_info } in
      rw (type_url_eq t u, same_type_self t)
        (elim (Bool-cases (same_type t u)) [
          | inl same ↦ rw same refl
          | inr other ↦ rw other (c.caches u)
        ])

  received-IsCurrent :
      (o : Option DiscoveryResponse)
      → let e = received t (discovery_request client t names) client o in
        IsCurrent e.client (sent_entry o ∷ log)
  unfolding sent_entry
  received-IsCurrent none = record {
    caches = λ u. c.caches u ∙ if-same (text_eq (type_url t) (type_url u)) _;
    acknowledging = sent_entry-IsAcknowledging none;
  }
  received-IsCurrent (some r) = record {
    caches = sent_entry-caches r;
    acknowledging = sent_entry-IsAcknowledging (some r);
  }

  entries-received :
      (o : Option DiscoveryResponse)
      → let req = discovery_request client t names in
        s.recv req ≡ o → entries s (received t req client o).sent log ≡ sent_entry o ∷ log
  unfolding sent_entry
  entries-received none e = ap (λ o. sent_entry o ∷ log) e
  entries-received (some r) e = ap (λ o. sent_entry o ∷ log) e

  exchanged : let e = exchange s t names client in IsCurrent e.client (entries s e.sent log)
  unfolding exchange sent_entry
  exchanged =
      let req = discovery_request client t names in
      let P = λ (e : Exchange). IsCurrent e.client (entries s e.sent log) in
      let answered : P (received t req client (s.recv req)) =
        subst (IsCurrent _) (sym (entries-received (s.recv req) refl))
          (received-IsCurrent (s.recv req)) in
      if-cases P s.opened _ (failed [] client)
        (λ _.
          if-cases P (s.send req) (received t req client (s.recv req)) (failed [] client)
            (λ _. answered) (λ _. c))
        (λ _. c)

rds_of-IsCurrent :
    (unmarshal : Text → Option (List VirtualHost)) (s : Stream) (name : Text) (client : XdsClient)
    (log : List Entry) (o : Option XdsClusterInfo)
    → IsCurrent client log
    → let c = rds_of unmarshal s name client o in IsCurrent c.client (entries s c.sent log)
rds_of-IsCurrent unmarshal s name client log none c = c
rds_of-IsCurrent unmarshal s name client log (some info) c =
    exchanged s type_rds (name ∷ []) client log c

client-inj : {c d : XdsClient} → some c ≡ some d → c ≡ d
client-inj e = cc

Run-IsCurrent : {client : XdsClient} {log : List Entry} → Run client log → IsCurrent client log
unfolding cds eds lds rds new_xds_client
Run-IsCurrent (new addr node client e) = record {
  caches = λ t. ap (λ c. c.req_caches t) (sym (client-inj e));
  acknowledging = tt;
}
Run-IsCurrent (cds_called {client} {log} unmarshal s r) =
    exchanged s type_cds [] client log (Run-IsCurrent r)
Run-IsCurrent (eds_called {client} {log} unmarshal s name r) =
    exchanged s type_eds (name ∷ []) client log (Run-IsCurrent r)
Run-IsCurrent (lds_called {client} {log} unmarshal s r) =
    exchanged s type_lds [] client log (Run-IsCurrent r)
Run-IsCurrent (rds_called {client} {log} unmarshal s name r) =
    rds_of-IsCurrent unmarshal s name client log (parse_cluster_name name) (Run-IsCurrent r)

-- In every sequence of calls of CDS, EDS, LDS and RDS on a new client, whatever the streams do, every
-- request that is sent carries the version and the nonce of the newest response received before it for
-- its type, and empty ones if there was none.
pub Run-IsAcknowledging :
    {client : XdsClient} {log : List Entry} → Run client log → IsAcknowledging log
Run-IsAcknowledging r = (Run-IsCurrent r).acknowledging
