-- ===== src/Tests/Resumes.antt =====
-- A node that fetches the one chunk of a file from the device that sent it.
use nexus_p2p.Base.{ℕ, ◌≢◌, sym, ap, ◌∙◌, arith, some, true, false, [], ◌∷◌, ◌++◌}
use nexus_p2p.Base.Int.{pos}
use nexus_p2p.Base.Text.{Text, Bytes, codes}
use nexus_p2p.Base.Result.{fail, Result, ok, err}
use nexus_p2p.External.{External}
use nexus_p2p.Model.{PeerEndpoint, Peer, FileManifest}
use nexus_p2p.Protocol.{WireChunk, WireMessage, WireEnvelope}
use nexus_p2p.Crypto.Draws.{encrypt_chunk}
use nexus_p2p.Node.{Node}
use nexus_p2p.Node.Client.{stream_of}
use nexus_p2p.Node.Client.Files.{resume_files}
use nexus_p2p.Node.Client.Resume.{AnswersFirst}
use nexus_p2p.Node.Client.Resume.Nodes.{to_nodes, resume_files-to_nodes}
use nexus_p2p.Node.Client.Resume.Ends.{resume_files-ends}
use nexus_p2p.Tests.Crates.{crates}
use nexus_p2p.Tests.Devices.{alice, bob, clock, empty_store, value}
use nexus_p2p.Tests.Nodes.{node}

abbrev content : Bytes
content = 7 ∷ 9 ∷ []

abbrev chunk_hash : Text
chunk_hash = crates.hex_encode (crates.blake3 content)

abbrev manifest : FileManifest
manifest = record {
  id = codes "m";
  name = codes "f.t";
  media_type = codes "text/plain";
  size = 2;
  chunk_size = 2;
  chunks = record { index = 0; hash = chunk_hash; size = 2 } ∷ [];
  file_hash = chunk_hash;
}

-- One manifest is known.
abbrev library : External
library = record crates { manifest_from_json = λ t. ok manifest }

abbrev sealed : Bytes × Bytes
sealed =
    value ([], [])
      (encrypt_chunk library alice bob.public (stream_of alice.public.device_id node) (codes "m")
        chunk_hash content clock).0

abbrev chunk_for : Text → WireChunk
chunk_for hash = record { hash = hash; nonce = sealed.0; bytes = sealed.1 }

abbrev answer_to : WireMessage → Result WireEnvelope
answer_to (WireMessage.chunk_request id (hash ∷ hashes)) = ok (record {
  version = 1;
  sender = alice.public;
  body = WireMessage.chunk_result id (chunk_for hash ∷ []);
})
answer_to _ = err (fail (codes "refused"))

abbrev transport : ℕ → PeerEndpoint → WireEnvelope → Result WireEnvelope
transport k endpoint asked = answer_to asked.body

-- the hash of the first chunk of an answer
abbrev first_hash : WireMessage → Text
first_hash (WireMessage.chunk_result id (chunk ∷ chunks)) = chunk.hash
first_hash _ = []

abbrev answered_hash : Result WireEnvelope → Text
answered_hash (ok answer) = first_hash answer.body
answered_hash (err e) = []

transport-AnswersFirst : AnswersFirst transport
transport-AnswersFirst k endpoint asked answer id other hash hashes chunk chunks body reply given =
    sym (ap answered_hash (sym (ap answer_to body) ∙ reply) ∙ ap first_hash given)

abbrev friend : Peer
friend = record {
  identity = alice.public;
  endpoint = some (record { host = codes "10.0.0.2"; port = 4000 });
  paired = true;
  last_seen_ms = pos 1;
}

abbrev waiting : Node
waiting = record node {
  machine = record {
    env = clock;
    store = record empty_store {
      manifest_rows =
          record {
            id = codes "m";
            peer_id = alice.public.device_id;
            manifest_json = codes "m";
            complete = 0;
          }
          ∷ [];
      chunk_rows =
          record { manifest_id = codes "m"; chunk_index = 0; hash = chunk_hash; present = 0 } ∷ [];
    };
  };
}

resume_files-ends_example : (resume_files library transport 2 friend waiting).0 ≢ ok false
resume_files-ends_example =
    resume_files-ends library transport transport-AnswersFirst 2 friend waiting (omega arith)

-- the node of the device that sent the file
abbrev sender : Node
sender = record waiting {
  keys = alice;
  display_name = codes "alice";
  machine = record waiting.machine {
    store = record waiting.machine.store {
      peer_rows =
          record {
            device_id = bob.public.device_id;
            identity_json = value [] (library.identity_to_json bob.public);
            host = some (codes "10.0.0.3");
            port = some 4000;
            paired = 1;
            last_seen_ms = pos 1;
          }
          ∷ [];
      disk = (codes "blobs/07/" ++ chunk_hash, content) ∷ [];
    };
  };
}

abbrev nodes : ℕ → PeerEndpoint → Node
nodes k endpoint = sender

resume_files-to_nodes_example :
    (resume_files library (to_nodes library nodes) 2 friend waiting).0 ≢ ok false
resume_files-to_nodes_example = resume_files-to_nodes library nodes 2 friend waiting (omega arith)
