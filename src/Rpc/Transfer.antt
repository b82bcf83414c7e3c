-- ===== src/Rpc/Transfer.antt =====
-- crates/libs/nexigon-rpc/src/lib.rs: the transfer of a call and of a result.
use nexigon.Base.{
  ℕ, ◌≤◌, ◌≡◌, sym, subst, ap, ◌∙◌, List, [], ◌∷◌, ◌++◌, append-nil, append_cancel, true, length,
  to_be_bytes,
}
use nexigon.Rpc.{Source, Sink, ok, max_action_name_size, max_input_size, max_output_size}
use nexigon.Rpc.Streams.{SourceLaws, SinkLaws, Gives}
use nexigon.Rpc.Bytes.{send_pieces-written}
use nexigon.Rpc.Messages.{
  Host, read_action, read_response, map_execute_write, map_result_write, send_request, send_result,
}
use nexigon.Rpc.Receiving.{call_bytes, result_bytes, read_action-Gives, read_response-Gives}

module _ {ℓ κ} {W : Type ℓ} {R : Type κ} {sink : Sink W} {source : Source R}
    (sending : SinkLaws sink) (receiving : SourceLaws source) (host : Host)
    (room : (a b : ℕ) → host.reserve a b ≡ true) where
  sent_call :
      (w : W) (name input sent : List ℕ)
      → (send_request sink w name input).1 ≡ ok tt
      → sending.written (send_request sink w name input).0 ≡ sending.written w ++ sent
      → sent ≡ call_bytes name input
  unfolding send_request
  sent_call w name input sent e s = append_cancel (sending.written w) sent (call_bytes name input) (
      sym s
      ∙ send_pieces-written sending map_execute_write w
          (to_be_bytes 2 (length name) ∷ name ∷ to_be_bytes 4 (length input) ∷ input ∷ []) e
      ∙ ap
          (λ x.
            sending.written w
            ++ (to_be_bytes 2 (length name) ++ (name ++ (to_be_bytes 4 (length input) ++ x))))
          (append-nil input))

  sent_result :
      (w : W) (result sent : List ℕ)
      → (send_result sink w result).1 ≡ ok tt
      → sending.written (send_result sink w result).0 ≡ sending.written w ++ sent
      → sent ≡ result_bytes result
  unfolding send_result
  sent_result w result sent e s = append_cancel (sending.written w) sent (result_bytes result) (
      sym s
      ∙ send_pieces-written sending map_result_write w (to_be_bytes 4 (length result) ∷ result ∷ [])
          e
      ∙ ap (λ x. sending.written w ++ (to_be_bytes 4 (length result) ++ x)) (append-nil result))

  -- A call that was sent without an error is read as the same name and input, in whatever chunks its body
  -- arrives, and the permit that is kept is for exactly the input. The name and the input are within their
  -- limits, the name is valid UTF-8, and the reader finds the memory and gets the permit.
  pub send_request-read_action :
      (w : W) (r : R) (name input sent rest : List ℕ)
      → length name ≤ max_action_name_size
      → length input ≤ max_input_size
      → host.is_utf8 name ≡ true
      → host.grants (length input) ≡ true
      → (send_request sink w name input).1 ≡ ok tt
      → sending.written (send_request sink w name input).0 ≡ sending.written w ++ sent
      → receiving.Holds r (sent ++ rest)
      → Gives receiving
          (read_action source host r)
          (ok (record { action_name = name; input = input; permit = length input }))
          rest
  send_request-read_action w r name input sent rest short small valid granted e s holds =
      read_action-Gives receiving host room name input rest r short small valid granted
        (subst (λ x. receiving.Holds r (x ++ rest)) (sent_call w name input sent e s) holds)

  -- A result within its limit that was sent without an error is read as the same bytes, in whatever chunks it
  -- arrives, if the reader finds the memory and gets the permit.
  pub send_result-read_response :
      (w : W) (r : R) (result sent rest : List ℕ)
      → length result ≤ max_output_size
      → host.grants (length result) ≡ true
      → (send_result sink w result).1 ≡ ok tt
      → sending.written (send_result sink w result).0 ≡ sending.written w ++ sent
      → receiving.Holds r (sent ++ rest)
      → Gives receiving (read_response source host r) (ok result) rest
  send_result-read_response w r result sent rest small granted e s holds =
      read_response-Gives receiving host room result rest r small granted
        (subst (λ x. receiving.Holds r (x ++ rest)) (sent_result w result sent e s) holds)
