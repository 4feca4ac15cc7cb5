-- ===== src/Loraham/Posix/Refines.antt =====
-- The sends of the POSIX transport beside those of Loraham/Link.antt.
use meshcom_loraham_bridge.Prelude.{
  ℕ, ◌+◌, Option, none, some, List, [], ◌∷◌, ◌==◌, if◌then◌else◌, length, drop, min, Bytes, ◌≡◌,
  refl, arith,
}
use meshcom_loraham_bridge.Loraham.Link.{
  Send, send_failed, accepts, TxFlush, complete, partial, flush_failed, send_loop,
}
use meshcom_loraham_bridge.Loraham.Posix.{SendAnswer, sent, send_again, send_error, send_some}

-- What the interface tells of an answer of send.
abbrev pub told_send : SendAnswer → Send
told_send (sent n) = accepts n
told_send send_again = accepts 0
told_send send_error = send_failed

abbrev pub told_sends : List SendAnswer → List Send
told_sends [] = []
told_sends (a ∷ answers) = told_send a ∷ told_sends answers

-- The write loop of LorahamBackend::pump_tx_write over data_send_some: how it ends and what it wrote.
pub posix_send_loop : Option ℕ → List SendAnswer → Bytes → TxFlush × ℕ
posix_send_loop fd answers [] = (complete, 0)
posix_send_loop fd [] (b ∷ bytes) = (elim fd [ none ↦ flush_failed | some k ↦ partial ], 0)
posix_send_loop fd (a ∷ answers) (b ∷ bytes) =
    let w : ℕ = elim (send_some fd a (b ∷ bytes)) [ none ↦ 0 | some n ↦ n ] in
    let (flush, count) = posix_send_loop fd answers (drop w (b ∷ bytes)) in
    elim (send_some fd a (b ∷ bytes)) [
      | none ↦ (flush_failed, 0)
      | some n ↦ if n == 0 then (partial, 0) else (flush, n + count)
    ]

-- The answers that Link has for a transport with that descriptor.
abbrev pub link_answers : Option ℕ → List SendAnswer → List Send
link_answers none answers = send_failed ∷ []
link_answers (some fd) answers = told_sends answers

-- The write loop over the POSIX transport ends as the loop over Link's answers does, with as many
-- bytes written, whatever send answers and whether the socket is there or not.
pub posix_send_loop_lem :
    (fd : Option ℕ) (answers : List SendAnswer) (bytes : Bytes)
    → let written = send_loop (link_answers fd answers) bytes in
      posix_send_loop fd answers bytes ≡ (written.flush, written.count)
unfolding posix_send_loop send_loop send_some
posix_send_loop_lem none answers [] = refl
posix_send_loop_lem none [] (b ∷ bytes) = refl
posix_send_loop_lem none (a ∷ answers) (b ∷ bytes) = refl
posix_send_loop_lem (some fd) [] [] = refl
posix_send_loop_lem (some fd) (a ∷ answers) [] = refl
posix_send_loop_lem (some fd) [] (b ∷ bytes) = refl
posix_send_loop_lem (some fd) (sent n ∷ answers) (b ∷ bytes) =
    ground
      (arith, posix_send_loop_lem (some fd) answers (drop (min n (length (b ∷ bytes))) (b ∷ bytes)))
posix_send_loop_lem (some fd) (send_again ∷ answers) (b ∷ bytes) = ground arith
posix_send_loop_lem (some fd) (send_error ∷ answers) (b ∷ bytes) = ground arith
