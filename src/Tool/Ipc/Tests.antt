-- ===== src/Tool/Ipc/Tests.antt =====
-- A frame of two bytes.
use tryxctl.Prelude.{◌≡◌, ◌++◌, [], ◌∷◌, ok, arith}
use tryxctl.Tool.Ipc.{write_frame, read_frame}
use tryxctl.Tool.Ipc.Frames.{read_frame-write_frame}

read_frame-write_frame_example :
    read_frame (write_frame (123 ∷ 125 ∷ []) ++ (9 ∷ [])) ≡ ok (123 ∷ 125 ∷ [], 9 ∷ [])
read_frame-write_frame_example = read_frame-write_frame (123 ∷ 125 ∷ []) (9 ∷ []) (omega arith)
