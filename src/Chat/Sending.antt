-- ===== src/Chat/Sending.antt =====
-- The messages that scripts send through NWNX_Chat/NWNXChat.cpp.
use mathlib.Core.List.{append_assoc}
use nwnx2_windows.Prelude.{
  ℕ, ◌-◌, ◌<◌, ◌^◌, ◌≡◌, refl, sym, ap, ◌∙◌, Bool, true, false, not, some, [], ◌∷◌, ◌++◌, ◌&&◌,
  ◌||◌, arith, ◌==◌, if◌then◌else◌, Text, codes, pos, print_hex, print_nat, Lacks, split_last,
  split_last-append, EndsWord, scan_byte, scan_hex-print_hex, scan_decimal-print_nat, signed32,
  hex_value,
}
use nwnx2_windows.Chat.{
  NwnxChat, Sent, delimiter, server_id, scan_channel, scan_recipient, scan_parameters, le_signed,
  reply, send, send_parsed, nwnx_send_message,
}

-- The parameters as nwnx_chat.nss writes them: the sender, the recipient, the channel, the message.
unfoldable pub format : ℕ → ℕ → ℕ → Text → Text
format sender recipient channel message =
    print_hex sender
    ++ (delimiter
        ∷ (print_hex recipient ++ (delimiter ∷ (print_nat channel ++ (delimiter ∷ message)))))

ends : (s : Text) → EndsWord (delimiter ∷ s)
unfolding hex_value
ends s = (refl, omega arith, omega arith)

scan_parameters-format :
    (sender recipient channel : ℕ) (message : Text)
    → sender < 2 ^ 32
    → recipient < 2 ^ 32
    → channel < 2 ^ 32
    → scan_parameters (format sender recipient channel message) ≡ some (sender, recipient, channel)
unfolding format scan_parameters scan_recipient scan_channel scan_byte hex_value
scan_parameters-format sender recipient channel message s r c =
    let c-text = delimiter ∷ message in
    let r-text = delimiter ∷ (print_nat channel ++ c-text) in
    let s-text = delimiter ∷ (print_hex recipient ++ r-text) in
    rw (scan_hex-print_hex sender s-text s (ends (print_hex recipient ++ r-text)), scan_parameters)
      (rw
        (scan_hex-print_hex recipient r-text r (ends (print_nat channel ++ c-text)), scan_recipient)
        (rw (scan_decimal-print_nat channel c-text c refl, scan_channel) refl))

split_last-format :
    (sender recipient channel : ℕ) (message : Text)
    → Lacks delimiter message
    → split_last delimiter (format sender recipient channel message)
      ≡ some (
        print_hex sender ++ (delimiter ∷ (print_hex recipient ++ (delimiter ∷ print_nat channel))),
        message,
      )
unfolding format
split_last-format sender recipient channel message h =
    let m = delimiter ∷ message in
    let tail = delimiter ∷ print_nat channel in
    let before = print_hex sender ++ (delimiter ∷ (print_hex recipient ++ tail)) in
    let regroup : before ++ m ≡ format sender recipient channel message =
      append_assoc (print_hex sender) (delimiter ∷ (print_hex recipient ++ tail)) m
      ∙ ap (λ t. print_hex sender ++ (delimiter ∷ t)) (append_assoc (print_hex recipient) tail m) in
    ap (split_last delimiter) (sym regroup) ∙ split_last-append delimiter before message h

reply-not : (b : Bool) → reply (not b) ≡ (if b then codes "0" else codes "1")
unfolding reply
reply-not true = refl
reply-not false = refl

module _ (get_id : ℕ → ℕ) (deliver : Sent → ℕ) where
  -- While a chat script runs, parameters written for three 32-bit words and a message without the
  -- delimiter are read back: a private message to an id that, as a signed number, is at most 0x7f000000 is refused.
  -- Any other reaches the engine as the last message sent, with the recipient as the sender of a
  -- server message, and for all unless it is private or from the server; the answer is 0 where the
  -- engine's is 0, and 1 otherwise. Before a message has come by, all but server messages are
  -- refused. A refusal is answered 0 and changes nothing.
  pub nwnx_send_message-format :
      (chat : NwnxChat) (sender recipient channel : ℕ) (message : Text)
      → sender < 2 ^ 32
      → recipient < 2 ^ 32
      → channel < 2 ^ 32
      → Lacks delimiter message
      → chat.script_run ≡ true
      → nwnx_send_message get_id deliver chat (format sender recipient channel message) ≡ (
          let private_channel = channel == 4 || channel == 20 in
          let m : Sent = record {
            channel = channel;
            sender = if channel == 5 then recipient else sender;
            message = message;
            recipient = if private_channel || channel == 5 then get_id recipient else 2 ^ 32 - 1;
          } in
          if private_channel && le_signed (signed32 recipient) (pos server_id)
          then (chat, codes "0")
          else if channel == 5 || chat.chat_this
          then (
            record chat { sent = chat.sent ++ (m ∷ []) },
            if deliver m == 0 then codes "0" else codes "1",
          )
          else (chat, codes "0"))
  unfolding nwnx_send_message send_parsed send reply
  nwnx_send_message-format chat sender recipient channel message s r c lacks inside =
      rw (split_last-format sender recipient channel message lacks, nwnx_send_message)
        (rw (scan_parameters-format sender recipient channel message s r c, nwnx_send_message)
          (rw (reply-not _) refl))
