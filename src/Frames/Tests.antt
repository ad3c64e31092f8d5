-- ===== src/Frames/Tests.antt =====
-- Frames in concrete tables.
use shiv.Prelude.{ℕ, ◌≡◌, refl, Bool, true, false, some, List, [], ◌∷◌, arith}
use shiv.Text.{Bytes, codes}
use shiv.Events.Event.{WebSocketFrameEvent, client, text_frame}
use shiv.Frames.{frames_for_connection, cut_payload, FrameStore}
use shiv.Frames.Log.{observe_frames, logged, payloads, frames_for_connection-observe_frames}

abbrev no_rows : FrameStore
no_rows = record { connections = []; frames = []; next_connection = 1; next_frame = 1 }

abbrev frame_on : ℕ → Bytes → WebSocketFrameEvent
frame_on id p = record {
  connection_id = id;
  timestamp = 0;
  direction = client;
  opcode = text_frame;
  payload = some p;
}

abbrev captured : List (Bool × WebSocketFrameEvent)
captured =
    (false, frame_on 1 (codes "a"))
    ∷ (false, frame_on 2 (codes "b"))
    ∷ (true, frame_on 1 (codes "lost"))
    ∷ (false, frame_on 0 (codes "untracked"))
    ∷ (false, frame_on 1 (codes "c"))
    ∷ []

frames_for_connection-observe_frames_example :
    payloads (frames_for_connection 1 (observe_frames captured no_rows).frames)
    ≡ some (codes "a") ∷ some (codes "c") ∷ []
unfolding logged cut_payload frames_for_connection
frames_for_connection-observe_frames_example =
    frames_for_connection-observe_frames 1 captured no_rows (λ e. absurd (omega arith)) refl
