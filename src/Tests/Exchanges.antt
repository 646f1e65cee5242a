-- ===== src/Tests/Exchanges.antt =====
-- The two devices exchange the events of their stream.
use mathlib.Core.List.{Memᴰ}
use mathlib.Core.List.Memᴰ
use nexus_p2p.Base.{
  ℕ, ◌≡◌, refl, none, some, true, false, [], ◌∷◌, Option, List, nat_eq, list_eq, All, contains,
  arith, inl, inr, ==-refl,
}
use nexus_p2p.Base.Int.{pos, int_leb}
use nexus_p2p.Base.Text.{trim, trim_start, trim_end, is_whitespace, text_leb, utf8}
use nexus_p2p.Base.Result.{Result, ok}
use nexus_p2p.Base.Sort.{sort_by, insert_by}
use nexus_p2p.Base.Decimal.{int_decimal, decimal}
use nexus_p2p.Storage.Events.{
  event_ids, events, select_events, event_leb, event_of_row, event_row, insert_event, insert_row,
  row_ids,
}
use nexus_p2p.Storage.{EventRow}
use nexus_p2p.Storage.Events.Held.{Agree, All-Memᴰ}
use nexus_p2p.Node.Client.Sync.{pair, pair_answer, sync}
use nexus_p2p.External.{fill_bytes, now_ms, new_ulid}
use nexus_p2p.Model.{
  PeerEndpoint, Peer, direct_stream_id, kind_code, kind_eq, kind_try_from, signable, identity_eq,
}
use nexus_p2p.Protocol.{WireEnvelope}
use nexus_p2p.Crypto.{
  verify_and_decrypt, conversation_key, seal_event, aad, shared_secret, verify, sign,
}
use nexus_p2p.Crypto.Draws.{create_event}
use nexus_p2p.Identity.{device_id_of, validate_public_identity}
use nexus_p2p.Identity.Local.{create, load_or_create}
use nexus_p2p.Storage.Identities.{load_identity, save_identity}
use nexus_p2p.Storage.Peers.{
  peer, find_row, read_row, upsert_peer, upsert_row, merge_peer, coalesce, set_peer_paired,
}
use nexus_p2p.Node.{
  Node, node_identity, author_of, chat_item, process_manifest, require_sender_paired,
  require_paired_peer, require_reachable_peer, emit,
}
use nexus_p2p.Node.Start.{new_node}
use nexus_p2p.Node.Server.{
  handle_request, handle_message, handle_pair_request, handle_sync_exchange, accept_event,
  missing_events,
}
use nexus_p2p.Node.Client.{
  stream_of, send_text, exchange_events, remember_peer, accept_answer, receive_event,
  received_events, refuse_error, request, send,
}
use nexus_p2p.Node.Exchange.Both.{HaveExchanged, exchange_events-HaveExchanged}
use nexus_p2p.Tests.Crates.{crates, crates-IsLawful}
use nexus_p2p.Tests.Devices.{alice}
use nexus_p2p.Tests.Lives.{a, a-Reach, b, b_id, b-Reach}

abbrev answering : Node → ℕ → PeerEndpoint → WireEnvelope → Result WireEnvelope
answering other k endpoint asked = (handle_request crates asked other).0

abbrev known_of : Result (Option Peer) → Peer
known_of (ok (some p)) = p
known_of _ = record {
  identity = alice.public;
  endpoint = none;
  paired = false;
  last_seen_ms = pos 0;
}

abbrev found : Result (Option Peer)
found = (peer crates b_id a.store).0

-- Two logs without a common id agree.
apart-Agree :
    (rows others : List EventRow)
    → All (λ (r : EventRow). contains (row_ids others) r.id ≡ false) rows
    → Agree rows others
apart-Agree rows others h r s mr ms e =
    absurd (ground (arith, All-Memᴰ _ r rows h mr, id_there s others ms, e))
  where
    id_there :
        (s : EventRow) (others : List EventRow)
        → Memᴰ s others
        → contains (row_ids others) s.id ≡ true
    id_there s [] m = absurd (Memᴰ.not-nil m)
    id_there s (o ∷ others) m = elim (Memᴰ.cases_cons m) [
      | inl e ↦ rw (e, ==-refl o.id) refl
      | inr n ↦ ground (arith, id_there s others n)
    ]

-- Each has a message of its own.
agree : Agree a.store.event_rows b.store.event_rows
unfolding exchange_events event_ids events select_events sort_by insert_by remember_peer
    validate_public_identity list_eq node_identity new_node load_or_create load_identity create
    fill_bytes save_identity device_id_of nat_eq trim trim_start trim_end is_whitespace now_ms
    new_ulid text_leb utf8 aad int_decimal decimal conversation_key shared_secret verify sign
    verify_and_decrypt seal_event create_event direct_stream_id kind_code kind_eq kind_try_from
    signable accept_answer receive_event received_events refuse_error request send author_of
    chat_item process_manifest event_leb event_of_row event_row insert_event insert_row int_leb
    coalesce find_row merge_peer peer read_row upsert_peer upsert_row set_peer_paired handle_request
    handle_message handle_pair_request handle_sync_exchange accept_event missing_events
    require_sender_paired pair pair_answer sync send_text require_paired_peer require_reachable_peer
    emit identity_eq
agree = apart-Agree a.store.event_rows b.store.event_rows (refl, tt)

abbrev exchanged : Result (List ℕ) × Node
exchanged = exchange_events crates (answering b) b_id (known_of found) a

exchanged_ok : exchanged.0 ≡ ok (1 ∷ [])
unfolding exchange_events event_ids events select_events sort_by insert_by remember_peer
    validate_public_identity list_eq node_identity new_node load_or_create load_identity create
    fill_bytes save_identity device_id_of nat_eq trim trim_start trim_end is_whitespace now_ms
    new_ulid text_leb utf8 aad int_decimal decimal conversation_key shared_secret verify sign
    verify_and_decrypt seal_event create_event direct_stream_id kind_code kind_eq kind_try_from
    signable accept_answer receive_event received_events refuse_error request send author_of
    chat_item process_manifest event_leb event_of_row event_row insert_event insert_row int_leb
    coalesce find_row merge_peer peer read_row upsert_peer upsert_row set_peer_paired handle_request
    handle_message handle_pair_request handle_sync_exchange accept_event missing_events
    require_sender_paired pair pair_answer sync send_text require_paired_peer require_reachable_peer
    emit identity_eq
exchanged_ok = refl

exchange_events-HaveExchanged_example :
    HaveExchanged crates (stream_of b_id a) (known_of found).identity.device_id a exchanged.1 b
exchange_events-HaveExchanged_example =
    exchange_events-HaveExchanged crates crates-IsLawful (answering b) b_id (known_of found) a-Reach
      b-Reach (λ endpoint asked. refl) agree exchanged_ok
