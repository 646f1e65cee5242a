-- ===== src/Ffi.antt =====
-- core/nexus-core/src/ffi.rs: the commands of the C interface. A string of C is its bytes, or the
-- null pointer. Parameters: `to_str` and the parse of the configuration and of a command, crates and
-- the standard library; and the receiver of the broadcast channel, a crate: `try_recv` on the events
-- that were sent and where the receiver stands. A `Value` is what it is made of.
pub mod Remembered
pub mod Drained
use nexus_p2p.Base.{
  ℕ, zero, suc, Bool, true, false, not, Option, none, some, List, [], ◌∷◌, ◌++◌, ◌==◌, nat_eq,
  list_eq, contains, length, if◌then◌else◌,
}
use nexus_p2p.Base.Text.{Text, Bytes, codes, trim, utf8}
use nexus_p2p.Base.Result
use nexus_p2p.Base.Result.{Error, fail, panic, Result, ok, err}
use nexus_p2p.Base.Exec.{Exec, pure, raise, lift, gets, ensure, some_or, zoom, ◌>>=◌, ◌>>◌}
use nexus_p2p.External.{External, Env}
use nexus_p2p.Model.{DeviceId, PublicIdentity, PeerEndpoint, Peer, ChatItem}
use nexus_p2p.Protocol.{WireEnvelope}
use nexus_p2p.Storage.Open.{Disk}
use nexus_p2p.Storage.Peers
use nexus_p2p.Node.{Node, NodeEvent, in_store, node_identity}
use nexus_p2p.Node.Client
use nexus_p2p.Node.Client.{set_display_name, remember_peer, send_text}
use nexus_p2p.Node.Client.Files.{send_file, materialize_file}
use nexus_p2p.Node.Client.Sync
use nexus_p2p.Node.Start.{NodeConfig, Services, open_node, start, shutdown}

pub record Command : Type 0 where
  pub op : Text
  pub peer_id : Text
  pub text : Text
  pub path : Text
  pub media_type : Text
  pub manifest_id : Text
  pub destination : Text
  pub identity : Option PublicIdentity
  pub host : Text
  pub port : ℕ
  pub display_name : Text

-- The data of an answer; `still_running` is a call whose loop is out of fuel.
pub data Data : Type 0 where
  null : Data
  started : PublicIdentity → Data
  identity : PublicIdentity → Data
  peers : List Peer → Data
  item : ChatItem → Data
  items : List ChatItem → Data
  events : List NodeEvent → Data
  still_running : Data

-- `{"ok": true, "data": ..}` and `{"ok": false, "error": ..}`
pub data Response : Type 0 where
  succeeded : Data → Response
  failed : Text → Response

-- A panic is no response: it does not return to the caller.
unfoldable pub respond : Result Data → Result Response
respond (ok d) = ok (Response.succeeded d)
respond (err (fail message)) = ok (Response.failed message)
respond (err panic) = err panic

-- what the interface uses of the standard library and of the crates
pub record Strings : Type 0 where
  pub to_str : Bytes → Result Text
  pub config_from_json : Text → Result NodeConfig
  pub command_from_json : Text → Result Command

unfoldable pub read_string : Strings → Option Bytes → Result Text
read_string strings none = err (fail (codes "null string pointer"))
read_string strings (some bytes) = strings.to_str bytes

-- `FfiHandle`, less its runtime
pub record Handle (R : Type 0) : Type 0 where
  pub node : Node
  pub receiver : R

-- `LAST_ERROR` after `set_error`; a panic is not caught.
abbrev after_error {ℓ} : {A : Type ℓ} → Text → Result A → Text
after_error last (ok a) = last
after_error last (err (fail message)) = message
after_error last (err panic) = last

-- `CString::new(..).map(CString::into_raw).unwrap_or(null)`: a text with a zero byte has no string.
abbrev c_string : Text → Option Bytes
c_string text = if contains (utf8 text) 0 then none else some (utf8 text)

-- The text of the last error, or what stands for it where the lock is poisoned.
abbrev error_or_poisoned : Option Text → Text
error_or_poisoned none = codes "error lock poisoned"
error_or_poisoned (some last) = last

unfoldable pub nexus_last_error : Option Text → Option Bytes
nexus_last_error last = c_string (error_or_poisoned last)

abbrev ran : Bool → Data
ran true = Data.null
ran false = Data.still_running

module _ (x : External) where
  unfoldable pub call_remember_peer : Command → Exec Node Data
  call_remember_peer c = do
    who ← some_or (fail (codes "missing peer identity")) c.identity
    ensure (not (trim c.host == [])) (fail (codes "missing peer host"))
    ensure (not (c.port == 0)) (fail (codes "missing peer port"))
    remember_peer x who (record { host = c.host; port = c.port })
    pure Data.null

module _ {R : Type 0} where
  abbrev in_node : {A : Type 0} → Exec Node A → Exec (Handle R) A
  in_node = zoom (λ h. h.node) (λ node h. record h { node = node })

  module _ (try_recv : List NodeEvent → R → Option NodeEvent × R) where
    -- The loop of `events`, for as many turns as there is fuel.
    unfoldable pub drain : ℕ → List NodeEvent → R → List NodeEvent × R
    drain zero sent r = ([], r)
    drain (suc k) sent r =
        let (got, r') = try_recv sent r in
        let (more, r'') = drain k sent r' in
        elim got [ none ↦ ([], r') | some event ↦ (event ∷ more, r'') ]

    -- No more events are received than were sent.
    unfoldable pub take_events : Exec (Handle R) Data
    take_events h =
        let (got, r) = drain (suc (length h.node.sent)) h.node.sent h.receiver in
        (ok (Data.events got), record h { receiver = r })

  -- `runtime` is what `Runtime::new` gives.
  module _ (x : External) (services : Services) (strings : Strings) (runtime : Result (Unit {0}))
      (subscribe : List NodeEvent → R) where
    create_handle : Option Bytes → Disk → Env → Result (Handle R)
    create_handle config_json disk env = Result.◌>>=◌ (read_string strings config_json) λ text.
        Result.◌>>=◌ (strings.config_from_json text) λ config. Result.◌>>=◌ runtime λ made.
          Result.◌>>=◌ (open_node x services config disk env).0
            λ node. ok (record { node = node; receiver = subscribe node.sent })

    -- The handle, where there is one, and the last error.
    unfoldable pub nexus_create : Option Bytes → Text → Disk → Env → Result (Handle R) × Text
    unfolding create_handle
    nexus_create config_json last disk env =
        let r = create_handle config_json disk env in (r, after_error last r)

  module _ (x : External) (transport : ℕ → PeerEndpoint → WireEnvelope → Result WireEnvelope)
      (reads : Bytes → List Bytes) (services : Services) (strings : Strings)
      (try_recv : List NodeEvent → R → Option NodeEvent × R) (fuel : ℕ) where
    -- The match on the operation.
    unfoldable pub dispatch : Command → Exec (Handle R) Data
    dispatch c =
        if c.op == codes "start"
        then (do
          in_node (start services)
          me ← gets (λ h. node_identity h.node)
          pure (Data.started me))
        else if c.op == codes "identity"
        then (do me ← gets (λ h. node_identity h.node); pure (Data.identity me))
        else if c.op == codes "set_display_name"
        then (do me ← in_node (set_display_name x c.display_name); pure (Data.identity me))
        else if c.op == codes "peers"
        then (do known ← in_node (in_store (Peers.peers x)); pure (Data.peers known))
        else if c.op == codes "remember_peer"
        then in_node (call_remember_peer x c)
        else if c.op == codes "pair"
        then (do ended ← in_node (Sync.pair x transport fuel c.peer_id); pure (ran ended))
        else if c.op == codes "send_text"
        then (do sent ← in_node (send_text x transport c.peer_id c.text); pure (Data.item sent))
        else if c.op == codes "send_file"
        then (do
          sent ← in_node (send_file x transport reads c.peer_id c.path c.media_type)
          pure (Data.item sent))
        else if c.op == codes "chat"
        then (do all ← in_node (Client.chat x transport c.peer_id); pure (Data.items all))
        else if c.op == codes "sync"
        then (do ended ← in_node (Sync.sync x transport fuel c.peer_id); pure (ran ended))
        else if c.op == codes "materialize_file"
        then (do in_node (materialize_file x c.manifest_id c.destination); pure Data.null)
        else if c.op == codes "events"
        then take_events try_recv
        else raise (fail (codes "unknown operation " ++ c.op))

    -- The closure, on a handle.
    unfoldable pub execute : Option Bytes → Exec (Handle R) Data
    execute command_json = do
      text ← lift (read_string strings command_json)
      command ← lift (strings.command_from_json text)
      dispatch command

    -- The response, and the handle after the call.
    unfoldable pub nexus_call :
        Option (Handle R) → Option Bytes → Result Response × Option (Handle R)
    nexus_call none command_json = (respond (err (fail (codes "null Nexus handle"))), none)
    nexus_call (some h) command_json = let (r, h') = execute command_json h in (respond r, some h')

  -- `Drop`: the node of a handle is shut down, and the outcome is dropped.
  abbrev drop_handle : Services → Handle R → Node
  drop_handle services h = (shutdown services h.node).1

  unfoldable pub nexus_destroy : Services → Option (Handle R) → Option Node
  nexus_destroy services none = none
  nexus_destroy services (some h) = some (drop_handle services h)
