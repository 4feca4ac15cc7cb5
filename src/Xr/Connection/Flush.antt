-- ===== src/Xr/Connection/Flush.antt =====
-- xr_connection.cpp: flush, and what reaches the peer.
use meshcom_loraham_bridge.Prelude.{
  List, [], ◌∷◌, ◌++◌, ◌≡◌, refl, ap, ◌∙◌, append_assoc, take-append-drop, take, drop, Bytes,
  if_rule, ◌==◌, min, ℕ,
}
use meshcom_loraham_bridge.Xr.Codec.{External}
use meshcom_loraham_bridge.Xr.Outbox.{IsBuffer, size, unsent, consume_lem}
use meshcom_loraham_bridge.Xr.Session.{out_consume}
use meshcom_loraham_bridge.Xr.Connection.{
  Connection, SocketWrite, wrote, write_again, write_interrupted, write_failed, send_part,
  fail_socket, flush_loop, flush,
}

module _ {ext : External} where
  -- What the peer has got and what is still to be sent.
  abbrev pub stream : Connection ext → Bytes
  stream c = c.peer_got ++ unsent c.session.outbox

  send_part-stream :
      (w : ℕ) (c : Connection ext)
      → IsBuffer c.session.outbox
      → (stream (send_part w c) ≡ stream c) × IsBuffer (send_part w c).session.outbox
  unfolding send_part out_consume
  send_part-stream w c v =
      let out = unsent c.session.outbox in
      let (kept, rest) = consume_lem w c.session.outbox v in
      (
        ap (λ (x : Bytes). (c.peer_got ++ take w out) ++ x) rest
            ∙ append_assoc c.peer_got (take w out) (drop w out)
            ∙ ap (λ (x : Bytes). c.peer_got ++ x) (take-append-drop w out),
        kept,
      )

  -- What a send and a failure keep, flush keeps.
  module _ (P : Connection ext → Type 0)
      (sends : (w : ℕ) (c : Connection ext) → P c → P (send_part w c))
      (fails : (c : Connection ext) → P c → P (fail_socket c)) where
    flush_answer :
        (a : SocketWrite) (answers : List SocketWrite) (c : Connection ext)
        → P c
        → ((d : Connection ext) → P d → P (flush_loop answers d).1)
        → P (flush_loop (a ∷ answers) c).1
    unfolding flush_loop
    flush_answer (wrote n) answers c v later =
        let w = min n (size c.session.outbox) in
        if_rule (λ (r : List SocketWrite × Connection ext). P r.1) _ _ _ v
          (if_rule (λ (r : List SocketWrite × Connection ext). P r.1) (w == 0) _ _ (fails c v)
            (later (send_part w c) (sends w c v)))
    flush_answer write_again answers c v later =
        if_rule (λ (r : List SocketWrite × Connection ext). P r.1) _ _ _ v v
    flush_answer write_interrupted answers c v later =
        if_rule (λ (r : List SocketWrite × Connection ext). P r.1) _ _ _ v (later c v)
    flush_answer write_failed answers c v later =
        if_rule (λ (r : List SocketWrite × Connection ext). P r.1) _ _ _ v (fails c v)

    pub flush_loop_rule :
        (answers : List SocketWrite) (c : Connection ext) → P c → P (flush_loop answers c).1
    unfolding flush_loop
    flush_loop_rule [] c v = v
    flush_loop_rule (a ∷ answers) c v =
        flush_answer a answers c v (λ d w. flush_loop_rule answers d w)

  -- If the outbox is well-formed, then whatever the socket answers, what it has taken and what the
  -- outbox still holds is together what it was before flush: nothing is lost, sent twice or out of
  -- order. The outbox stays well-formed.
  pub flush-stream :
      (c : Connection ext)
      → IsBuffer c.session.outbox
      → (stream (flush c) ≡ stream c) × IsBuffer (flush c).session.outbox
  unfolding flush fail_socket
  flush-stream c v =
      flush_loop_rule (λ (d : Connection ext). (stream d ≡ stream c) × IsBuffer d.session.outbox)
        (λ w d (e, v'). let (e', v'') = send_part-stream w d v' in (e' ∙ e, v'')) (λ d v'. v')
        c.writes c (refl, v)
