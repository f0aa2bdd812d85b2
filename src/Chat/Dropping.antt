-- ===== src/Chat/Dropping.antt =====
-- Which scripts NWNX_Chat/NWNXChat.cpp runs for a message, and which messages it drops.
use nwnx2_windows.Prelude.{
  ℕ, ◌/◌, ◌%◌, ◌≤◌, ◌<◌, ◌^◌, ◌≡◌, refl, ap, ◌∙◌, Bool, true, false, some, List, [], ◌++◌, ◌&&◌,
  ◌||◌, not, Outcome, Returns, arith, ◌==◌, if◌then◌else◌, length, length-append, length-take-le,
  take, Text, is_nonzero, Bool-cases, inl, inr,
}
use nwnx2_windows.Chat.{
  NwnxChat, Sent, run_script, run_for, process, chat_message, server_id, header,
}
use nwnx2_windows.Chat.Header.{Short, length-header, stored-done}
use nwnx2_windows.Chat.Scripts.{any_suppresses, perform_all-Continues}

-- A silent message that the configuration leaves out.
abbrev pub is_ignored : NwnxChat → ℕ → Bool
is_ignored chat mode = is_nonzero chat.ignore_silent && (mode == 13 || mode == 14)

-- The sender is one for the chat script: any but the server, or a player only.
abbrev pub is_for_script : NwnxChat → ℕ → Bool
is_for_script chat id =
    is_nonzero chat.process_npc && not (id == server_id)
    || not (is_nonzero chat.process_npc) && id / 2 ^ 16 == 0x7fff

-- What stands after the scripts that made the requests.
abbrev Ended : NwnxChat → List (Text × Text) → NwnxChat → Type 0
Ended chat requests chat' =
    (chat'.script_run ≡ false)
    × (chat'.supress_msg ≡ (chat.supress_msg || any_suppresses requests))
    × (chat'.last_msg ≡ chat.last_msg)

unmarked : (chat : NwnxChat) → chat.supress_msg ≡ (chat.supress_msg || false)
unmarked chat = ground arith

either-Ended :
    (chat : NwnxChat) (b : Bool) (m m' : Outcome NwnxChat) (r r' : List (Text × Text))
    → Returns m (Ended chat r)
    → Returns m' (Ended chat r')
    → Returns (if b then m else m') (Ended chat (if b then r else r'))
either-Ended chat true m m' r r' h k = h
either-Ended chat false m m' r r' h k = k

module _ (script : Text → ℕ → List (Text × Text)) where
  -- The requests that the scripts run for a message make.
  abbrev pub requests_for : NwnxChat → ℕ → ℕ → ℕ → List (Text × Text)
  requests_for chat mode id to =
      if is_for_script chat id
      then script chat.chat_script id
      else (if mode == 5 && id == server_id then script chat.serv_script to else [])

  -- Whether the message is dropped.
  abbrev pub drops : NwnxChat → ℕ → ℕ → ℕ → Bool
  drops chat mode id to =
      if is_ignored chat mode then false else any_suppresses (requests_for chat mode id to)

  abbrev Decided : NwnxChat → ℕ → ℕ → ℕ → NwnxChat × Bool → Type 0
  Decided chat mode id to p =
      (p.1 ≡ drops chat mode id to) × (p.0.script_run ≡ false) × (p.0.last_msg ≡ chat.last_msg)

  module _ (get_id : ℕ → ℕ) (deliver : Sent → ℕ) where
    run_script-Ended :
        (chat : NwnxChat) (name : Text) (object : ℕ)
        → length chat.last_msg < 1024
        → length chat.chat_script < 17
        → Returns
            (run_script get_id deliver script chat name object)
            (Ended chat (script name object))
    unfolding run_script
    run_script-Ended chat name object fits short =
        let (chat', e, c) =
          perform_all-Continues get_id deliver (record chat { script_run = true })
            (script name object) (refl, fits, short) in
        rw e (record chat' { script_run = false }, refl, (refl, c.marked, c.text))

    run_for-Ended :
        (chat : NwnxChat) (mode id to : ℕ)
        → chat.script_run ≡ false
        → length chat.last_msg < 1024
        → length chat.chat_script < 17
        → Returns
            (run_for get_id deliver script chat mode id to)
            (Ended chat (requests_for chat mode id to))
    unfolding run_for
    run_for-Ended chat mode id to idle fits short =
        either-Ended chat (is_for_script chat id) _ _ _ _
          (run_script-Ended chat chat.chat_script id fits short)
          (either-Ended chat (mode == 5 && id == server_id) _ _ _ _
            (run_script-Ended chat chat.serv_script to fits short)
            (chat, refl, (idle, unmarked chat, refl)))

    process-Ended :
        (chat : NwnxChat) (mode id to : ℕ)
        → chat.script_run ≡ false
        → chat.supress_msg ≡ false
        → length chat.last_msg < 1024
        → length chat.chat_script < 17
        → Returns (process get_id deliver script chat mode id to) (Decided chat mode id to)
    unfolding process
    process-Ended chat mode id to idle unset fits short = elim (Bool-cases (is_ignored chat mode)) [
      | inl ignored ↦ rw ignored (_, refl, (refl, idle, refl))
      | inr heard ↦
          let (chat', e, (idle', mark, text)) = run_for-Ended chat mode id to idle fits short in
          rw heard (
            rw e (
              _,
              refl,
              (
                mark ∙ ap (λ b. b || any_suppresses (requests_for chat mode id to)) unset,
                idle',
                text,
              ),
            ))
    ]

    -- A message of a mode below 100, with a short recipient, is handled to the end where the
    -- configured length leaves room for the scripts' reads and the script's name fits: the engine
    -- is told to drop it exactly if it is not an ignored silent message and one of the requests of
    -- the script that is run for it asks for that; afterwards no script is marked as running, and
    -- the text kept is that of the message.
    pub chat_message-Decided :
        (chat : NwnxChat) (mode id : ℕ) (msg : Text) (to : ℕ)
        → chat.script_run ≡ false
        → mode % 256 < 100
        → Short to
        → chat.max_msg_len ≤ 1011
        → length chat.chat_script < 17
        → Returns (chat_message get_id deliver script chat mode id (some msg) to) (λ p.
          (p.1 ≡ drops chat (mode % 256) id to)
          × (p.0.script_run ≡ false)
          × (p.0.last_msg ≡ header (mode % 256) to ++ take chat.max_msg_len msg))
    unfolding chat_message
    chat_message-Decided chat mode id msg to idle two short_to limit short =
        let text = header (mode % 256) to ++ take chat.max_msg_len msg in
        let size : length text < 1024 = omega (
          arith,
          length-append (header (mode % 256) to) (take chat.max_msg_len msg),
          length-take-le chat.max_msg_len msg,
          length-header (mode % 256) to two short_to,
        ) in
        rw (stored-done chat.max_msg_len (mode % 256) msg to two short_to) (
          process-Ended (record chat { last_msg = text; supress_msg = false }) (mode % 256) id to
            idle refl size short)
