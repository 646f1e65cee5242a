-- ===== src/Cli.antt =====
-- tools/nexus-cli/src/main.rs: the arguments, the lines that are typed, and what a session prints.
-- How peers and messages are written as JSON, a crate, is a parameter, and so is what is typed.
pub mod Lines
use nexus_p2p.Base.{
  ℕ, zero, suc, ◌+◌, ◌*◌, ◌-◌, Bool, true, false, Option, none, some, List, [], ◌∷◌, ◌++◌, ◌==◌,
  ◌&&◌, nat_eq, list_eq, leb, if◌then◌else◌,
}
use nexus_p2p.Base.Decimal.{decimal}
use nexus_p2p.Base.Text.{Text, Bytes, codes, trim}
use nexus_p2p.Base.Result
use nexus_p2p.Base.Result.{Error, fail, Result, ok, err, some_or}
use nexus_p2p.Base.Exec.{Exec, pure, lift, gets, modify, zoom, ◌>>=◌, ◌>>◌}
use nexus_p2p.External.{External, Env}
use nexus_p2p.Model.{DeviceId, PeerEndpoint, Peer, ChatItem}
use nexus_p2p.Protocol.{WireEnvelope}
use nexus_p2p.Storage.Open.{Disk}
use nexus_p2p.Storage.Peers
use nexus_p2p.Node.{Node, in_store, node_identity}
use nexus_p2p.Node.Client
use nexus_p2p.Node.Client.{send_text}
use nexus_p2p.Node.Client.Files.{send_file}
use nexus_p2p.Node.Client.Sync
use nexus_p2p.Node.Start.{NodeConfig, Services, open_node, start}

-- `parse` into a `u16`, after a sign
parse_digits : ℕ → Text → Result ℕ
parse_digits n [] = ok n
parse_digits n (c ∷ s) =
    let rest = parse_digits (n * 10 + (c - 48)) s in
    if leb 48 c && leb c 57
    then (if leb (n * 10 + (c - 48)) 65535
        then rest
        else err (fail (codes "number too large to fit in target type")))
    else err (fail (codes "invalid digit found in string"))

unfoldable pub parse_u16 : Text → Result ℕ
unfolding parse_digits
parse_u16 [] = err (fail (codes "cannot parse integer from empty string"))
parse_u16 (c ∷ []) = parse_digits 0 (c ∷ [])
parse_u16 (c ∷ d ∷ s) = if c == 43 then parse_digits 0 (d ∷ s) else parse_digits 0 (c ∷ d ∷ s)

-- `args.next()`
abbrev next_arg : List Text → Option Text × List Text
next_arg [] = (none, [])
next_arg (arg ∷ args) = (some arg, args)

abbrev or_default : Text → Option Text → Text
or_default d none = d
or_default d (some t) = t

abbrev port_of : Option Text → Result ℕ
port_of none = ok 47777
port_of (some t) = parse_u16 t

-- The configuration that the arguments after the first give.
unfoldable pub cli_config : List Text → Result NodeConfig
cli_config args =
    let (dir, args1) = next_arg args in
    let (name, args2) = next_arg args1 in
    Result.◌>>=◌ (port_of (next_arg args2).0) λ port. ok (record {
      data_dir = or_default (codes "./nexus-data") dir;
      display_name = or_default (codes "Nexus device") name;
      listen_port = port;
      enable_mdns = true;
    })

-- before the first separator, and after it
unfoldable pub split_once : ℕ → Text → Text × Option Text
split_once c [] = ([], none)
split_once c (d ∷ s) =
    let (before, after) = split_once c s in if d == c then ([], some s) else (d ∷ before, after)

abbrev pub cut : Text × Option Text → (Text → List Text) → List Text
cut (before, none) split = before ∷ []
cut (before, some rest) split = before ∷ split rest

-- `splitn(n, c)`
unfoldable pub splitn : ℕ → ℕ → Text → List Text
splitn zero c s = []
splitn (suc zero) c s = s ∷ []
splitn (suc (suc n)) c s = cut (split_once c s) (λ rest. splitn (suc n) c rest)

pub data CliCommand : Type 0 where
  peers : CliCommand
  pair : DeviceId → CliCommand
  say : DeviceId → Text → CliCommand
  file : DeviceId → Text → CliCommand
  chat : DeviceId → CliCommand
  sync : DeviceId → CliCommand
  quit : CliCommand
  blank : CliCommand
  unknown : Text → CliCommand

unfoldable pub required : Option Text → Text → Result Text
required value name = some_or (fail (codes "missing " ++ name)) value

abbrev first : List Text → Option Text
first [] = none
first (t ∷ ts) = some t

abbrev second : List Text → Option Text
second [] = none
second (t ∷ ts) = first ts

abbrev with_one : (Text → CliCommand) → List Text → Result CliCommand
with_one make args = Result.◌>>=◌ (required (first args) (codes "peer id")) λ id. ok (make id)

abbrev with_two : Text → (Text → Text → CliCommand) → List Text → Result CliCommand
with_two name make args =
    Result.◌>>=◌ (required (first args) (codes "peer id"))
      λ id. Result.◌>>=◌ (required (second args) name) λ t. ok (make id t)

-- The match on the first part, with what its arm requires.
unfoldable pub command_of : Text → List Text → Result CliCommand
command_of name args =
    if name == codes "peers"
    then ok CliCommand.peers
    else if name == codes "pair"
    then with_one CliCommand.pair args
    else if name == codes "say"
    then with_two (codes "text") CliCommand.say args
    else if name == codes "file"
    then with_two (codes "path") CliCommand.file args
    else if name == codes "chat"
    then with_one CliCommand.chat args
    else if name == codes "sync"
    then with_one CliCommand.sync args
    else if name == codes "quit"
    then ok CliCommand.quit
    else if name == codes "exit"
    then ok CliCommand.quit
    else if name == []
    then ok CliCommand.blank
    else ok (CliCommand.unknown name)

abbrev pub parts_command : List Text → Result CliCommand
parts_command [] = command_of [] []
parts_command (name ∷ args) = command_of name args

unfoldable pub parse_line : Text → Result CliCommand
parse_line line = parts_command (splitn 3 32 (trim line))

-- on standard output or standard error
pub data Printed : Type 0 where
  out : Text → Printed
  diagnostic : Text → Printed

pub record Session : Type 0 where
  pub node : Node
  pub printed : List Printed

-- Whether the loop goes on; `running` is a synchronization that is out of fuel.
pub data Turn : Type 0 where
  next : Turn
  stop : Turn
  running : Turn

abbrev in_node : {A : Type 0} → Exec Node A → Exec Session A
in_node = zoom (λ s. s.node) (λ node s. record s { node = node })

abbrev print : Printed → Exec Session Unit
print p = modify (λ s. record s { printed = s.printed ++ p ∷ [] })

abbrev turn_of : Bool → Turn
turn_of true = Turn.next
turn_of false = Turn.running

module _ (x : External) (transport : ℕ → PeerEndpoint → WireEnvelope → Result WireEnvelope)
    (reads : Bytes → List Bytes) (peers_to_json : List Peer → Result Text)
    (chat_to_json : List ChatItem → Result Text) (fuel : ℕ) where
  unfoldable pub run_command : CliCommand → Exec Session Turn
  run_command CliCommand.peers = do
    known ← in_node (in_store (Peers.peers x))
    json ← lift (peers_to_json known)
    print (Printed.out json)
    pure Turn.next
  run_command (CliCommand.pair id) = do
    ended ← in_node (Sync.pair x transport fuel id)
    pure (turn_of ended)
  run_command (CliCommand.say id text) = do in_node (send_text x transport id text); pure Turn.next
  run_command (CliCommand.file id path) = do
    in_node (send_file x transport reads id path (codes "application/octet-stream"))
    pure Turn.next
  run_command (CliCommand.chat id) = do
    items ← in_node (Client.chat x transport id)
    json ← lift (chat_to_json items)
    print (Printed.out json)
    pure Turn.next
  run_command (CliCommand.sync id) = do
    ended ← in_node (Sync.sync x transport fuel id)
    pure (turn_of ended)
  run_command CliCommand.quit = pure Turn.stop
  run_command CliCommand.blank = pure Turn.next
  run_command (CliCommand.unknown other) = do
    print (Printed.diagnostic (codes "unknown command: " ++ other))
    pure Turn.next

  -- The loop over the lines; the first command that fails ends it.
  unfoldable pub run_lines : List Text → Exec Session Bool
  run_lines [] = pure true
  run_lines (line ∷ lines) =
      let rest = run_lines lines in
      (do
        command ← lift (parse_line line)
        turn ← run_command command
        elim turn [ next ↦ rest | stop ↦ pure true | running ↦ pure false ])

  abbrev commands_help : Text
  commands_help =
      codes "commands: peers | pair ID | say ID TEXT | file ID PATH | chat ID | sync ID | quit"

  unfoldable pub greet : NodeConfig → Exec Session Unit
  greet config = do
    identity ← gets (λ s. node_identity s.node)
    print (
        Printed.out (
          codes "Nexus "
          ++ (identity.device_id ++ (codes " listening on " ++ decimal config.listen_port))))
    print (Printed.out commands_help)

  -- `main`; the events of the node are printed by a task of its own.
  unfoldable pub cli_main :
      Services → List Text → List Text → Disk → Env → Result Bool × List Printed
  cli_main services args lines disk env = elim (cli_config args) [
    | err e ↦ (err e, [])
    | ok config ↦ elim (open_node x services config disk env).0 [
      | err e ↦ (err e, [])
      | ok node ↦
          let session : Session = record { node = node; printed = [] } in
          let (r, s) = (in_node (start services) >> greet config >> run_lines lines) session in
          (r, s.printed)
    ]
  ]
