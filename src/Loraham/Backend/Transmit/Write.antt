-- ===== src/Loraham/Backend/Transmit/Write.antt =====
-- The loop that writes a frame to the DATA socket.
use meshcom_loraham_bridge.Prelude.{
  ◌≤◌, ◌++◌, length, take, drop, take-add, take_all, length-drop, append_assoc, Bytes, ◌≡◌, ◌≢◌,
  ◌↔◌, ◌⊎◌, inl, inr, refl, sym, ap, subst, ◌∙◌, arith,
}
use meshcom_loraham_bridge.Loraham.Link.{
  complete, partial, flush_failed, send_loop, send_loop_lem, data_writes, TxFlush,
}
use meshcom_loraham_bridge.Loraham.Backend.{Backend}
use meshcom_loraham_bridge.Loraham.Backend.Invariant.{IsFrame, EndsWith, DaemonOwns, BridgeOwns}
use meshcom_loraham_bridge.Loraham.Backend.Transmit.{pump_tx_write}

-- After the loop over the writes: how much of the frame the daemon has, and whether it is whole.
pub pump_tx_write_lem :
    (b : Backend)
    → b.tx_out_off ≤ length b.tx_out
    → EndsWith b.link.data_sent (take b.tx_out_off b.tx_out)
    → let (flush, b') = pump_tx_write b in
      (b'.tx_out_off ≤ length b.tx_out)
      × EndsWith b'.link.data_sent (take b'.tx_out_off b.tx_out)
      × ((flush ≡ complete) ↔ (b'.tx_out_off ≡ length b.tx_out))
unfolding pump_tx_write
pump_tx_write_lem b h (before, e) =
    let rest = drop b.tx_out_off b.tx_out in
    let w = send_loop (data_writes b.link) rest in
    let sizes = send_loop_lem (data_writes b.link) rest in
    let len = length-drop b.tx_out_off b.tx_out in
    (
      omega (arith, sizes.0, len),
      (
        before,
        ap (λ (x : Bytes). x ++ take w.count rest) e
            ∙ append_assoc before (take b.tx_out_off b.tx_out) (take w.count rest)
            ∙ ap (◌++◌ before) (sym (take-add b.tx_out_off w.count b.tx_out)),
      ),
      ((λ h'. omega (arith, sizes.1.0 h', len, h)), (λ h'. sizes.1.1 (omega (arith, h', len)))),
    )

-- The loop leaves all else as it was.
abbrev pub SameButWrites : Backend → Backend → Type 0
SameButWrites b c =
    (c.tx_out ≡ b.tx_out)
    × (c.state ≡ b.state)
    × (c.link.is_open ≡ b.link.is_open)
    × (c.pending_epoch ≡ b.pending_epoch)
    × (c.tx_epoch ≡ b.tx_epoch)
    × (c.parser ≡ b.parser)
    × (c.conf_line ≡ b.conf_line)

pub pump_tx_write_same : (b : Backend) → SameButWrites b (pump_tx_write b).1
unfolding pump_tx_write
pump_tx_write_same b = ground arith

pub TxFlush-cases : (f : TxFlush) → (f ≡ complete) ⊎ ((f ≡ partial) ⊎ (f ≡ flush_failed))
TxFlush-cases complete = inl refl
TxFlush-cases partial = inr (inl refl)
TxFlush-cases flush_failed = inr (inr refl)

flush_not_both : {f : TxFlush} → (f ≡ partial) ⊎ (f ≡ flush_failed) → f ≡ complete → ⊥
flush_not_both (inl e) h = cc
flush_not_both (inr e) h = cc

-- A frame that is being written: its writer leaves it whole with the daemon, or short of that.
pub pump_tx_write_owner :
    (b : Backend)
    → BridgeOwns b
    → let (flush, b') = pump_tx_write b in
      ((flush ≡ complete) × DaemonOwns b') ⊎ ((flush ≢ complete) × BridgeOwns b')
pump_tx_write_owner b (frame, off, sent, is_open, epoch) =
    let (flush, b') = pump_tx_write b in
    let (off', sent', whole) = pump_tx_write_lem b (omega arith) sent in
    let same = pump_tx_write_same b in
    let frame' : IsFrame b'.tx_out = subst IsFrame (sym same.0) frame in
    let size = ap (λ (x : Bytes). length x) same.0 in
    let epoch' = same.3 ∙ epoch ∙ sym same.4 in
    elim (TxFlush-cases flush) [
      | inl e ↦ inl (
        e,
        (
          frame',
          whole.0 e ∙ sym size,
          (
            sent'.0,
            sent'.1
                ∙ ap (◌++◌ sent'.0)
                    (take_all b'.tx_out_off b.tx_out (omega (arith, whole.0 e)) ∙ sym same.0),
          ),
          same.2 ∙ is_open,
          epoch',
        ),
      )
      | inr e ↦
          let short : flush ≢ complete = λ h. flush_not_both e h in
          let ne : b'.tx_out_off ≢ length b.tx_out = λ h. short (whole.1 h) in
          inr (
            short,
            (
              frame',
              omega (arith, off', size, ne),
              (sent'.0, sent'.1 ∙ ap (◌++◌ sent'.0) (ap (take b'.tx_out_off) (sym same.0))),
              same.2 ∙ is_open,
              epoch',
            ),
          )
    ]
