-- ===== src/Chat.antt =====
-- NWNX_Chat/NWNXChat.cpp and the functions of NWNX_Chat/HookChat.cpp that it calls: the plugin that
-- hands chat messages to a script. What the engine does is an argument: `get_id` gives the player id
-- of an object (GetPCobj), `deliver` the answer of the engine to a message that is sent, and the
-- requests that a script makes while it runs are a list. `nullptr` messages are `none`. Debug lines
-- are left out. A message that is sent while a chat script runs passes through the hooked function
-- straight to the engine; one that another script sends comes back through `ChatHookProc`, as a
-- message of its own (`chat_hook_proc`) whose result SendMsg returns, and this step is not followed:
-- `send` is what a chat script's message does. `log` holds the lines that scripts write.
pub mod Header
pub mod Scripts
pub mod Dropping
pub mod Sending
mod Tests
use nwnx2_windows.Prelude.{
  ℕ, zero, suc, ◌+◌, ◌-◌, ◌*◌, ◌/◌, ◌%◌, ◌^◌, Bool, true, false, Option, none, some, List, [], ◌∷◌,
  ◌++◌, Outcome, done, fault, ◌>>=◌, ◌&&◌, ◌||◌, not, ltb, leb, ◌==◌, if◌then◌else◌, length, take,
  Text, codes, starts_with, split_last, ℤ, pos, negsuc, is_nonzero, print_nat, print_int, pad_left,
  atoi, strtol16, signed32, bits32, scan_hex, scan_decimal, scan_byte,
}

-- A message handed to the engine, with 32-bit words; `recipient` is -1 for all.
pub record Sent : Type 0 where
  pub channel : ℕ
  pub sender : ℕ
  pub message : Text
  pub recipient : ℕ

pub record NwnxChat : Type 0 where
  pub process_npc : ℤ
  pub ignore_silent : ℤ
  pub max_msg_len : ℕ
  pub chat_script : Text
  pub serv_script : Text
  pub last_msg : Text
  pub supress_msg : Bool
  pub script_run : Bool
  pub chat_this : Bool
  pub sent : List Sent
  pub log : List Text

abbrev pub delimiter : ℕ
delimiter = 0xac

abbrev pub server_id : ℕ
server_id = 0x7f000000

-- `sscanf_s(Parameters, "%x¬%x¬%d¬", …)`, `none` for less than three conversions
unfoldable pub scan_channel : ℕ → ℕ → Option Text → Option (ℕ × ℕ × ℕ)
unfolding scan_decimal
scan_channel sender recipient none = none
scan_channel sender recipient (some s) = elim (scan_decimal s) [
  | none ↦ none
  | some (channel, rest) ↦ some (sender, recipient, channel)
]

unfoldable pub scan_recipient : ℕ → Option Text → Option (ℕ × ℕ × ℕ)
unfolding scan_channel scan_hex scan_byte
scan_recipient sender none = none
scan_recipient sender (some s) = elim (scan_hex s) [
  | none ↦ none
  | some (recipient, rest) ↦ scan_channel sender recipient (scan_byte delimiter rest)
]

unfoldable pub scan_parameters : Text → Option (ℕ × ℕ × ℕ)
unfolding scan_recipient scan_hex scan_byte
scan_parameters s = elim (scan_hex s) [
  | none ↦ none
  | some (sender, rest) ↦ scan_recipient sender (scan_byte delimiter rest)
]

-- `a <= b` on the integers of two words
unfoldable pub le_signed : ℤ → ℤ → Bool
le_signed (pos a) (pos b) = leb a b
le_signed (pos a) (negsuc b) = false
le_signed (negsuc a) (pos b) = true
le_signed (negsuc a) (negsuc b) = leb b a

-- `'1'` or `'0'`
unfoldable pub reply : Bool → Text
reply ok = if ok then codes "1" else codes "0"

-- the text up to the first blank among the first `n` bytes
unfoldable pub cut_blank : ℕ → Text → Text
cut_blank zero s = s
cut_blank (suc n) [] = []
cut_blank (suc n) (c ∷ s) = let rest = cut_blank n s in if c == b' ' then [] else c ∷ rest

-- `strcpy_s` and `strncpy_s` end the program if the text does not fit
unfoldable pub copy_out : ℕ → Text → Outcome Text
copy_out size text = if ltb (length text) size then done text else fault

abbrev pub Answer : Type 0
Answer = Outcome (NwnxChat × Option Text)

-- `atoi(Parameters) == 1`
unfoldable pub equals_one : ℤ → Bool
equals_one (pos n) = n == 1
equals_one (negsuc n) = false

-- the requests for which the plugin looks in a chat script only
unfoldable pub script_request : NwnxChat → Text → Text → Answer
unfolding copy_out atoi equals_one
script_request chat request parameters =
    if starts_with (codes "TEXT") request
    then (do text ← copy_out 1024 chat.last_msg; done (chat, some text))
    else if starts_with (codes "LOG") request
    then done (record chat { log = chat.log ++ (parameters ∷ []) }, none)
    else if starts_with (codes "SUPRESS") request && equals_one (atoi parameters)
    then done (record chat { supress_msg = true }, none)
    else done (chat, none)

-- the test for the script's requests at the end
unfoldable pub finish : NwnxChat → Text → Text → Answer
finish chat request parameters =
    if chat.script_run then script_request chat request parameters else done (chat, none)

-- `sprintf_s(lastMsg, maxMsgLen + 13, "%02d%10d", cmode, to)`, and `strncat_s` of the message
unfoldable pub header : ℕ → ℕ → Text
header mode to = pad_left 2 b'0' (print_nat mode) ++ pad_left 10 b' ' (print_int (signed32 to))

unfoldable pub stored : ℕ → ℕ → Text → ℕ → Outcome Text
stored limit mode msg to = do
  start ← copy_out (limit + 13) (header mode to)
  copy_out (limit + 13) (start ++ take limit msg)

-- what GETID makes of the parameters; `get_id` gives 0 where the object is no player's
unfoldable pub answer_id : (ℕ → ℕ) → Text → Text
unfolding cut_blank strtol16 bits32 signed32 print_int
answer_id get_id parameters =
    let object = bits32 (strtol16 (cut_blank 17 parameters)) in
    if object == 0 then codes "-1" else print_int (signed32 (get_id object))

module _ (get_id : ℕ → ℕ) (deliver : Sent → ℕ) where
  -- SendServerMessage, or SendMsg in a chat script, which refuses as long as no message has come by
  unfoldable pub send : NwnxChat → Sent → NwnxChat × Text
  unfolding reply
  send chat m =
      if m.channel == 5 || chat.chat_this
      then (record chat { sent = chat.sent ++ (m ∷ []) }, reply (not (deliver m == 0)))
      else (chat, reply false)

  unfoldable pub send_parsed : NwnxChat → Text → ℕ × ℕ × ℕ → NwnxChat × Text
  send_parsed chat message (sender, recipient, channel) =
      if (channel == 4 || channel == 20) && le_signed (signed32 recipient) (pos server_id)
      then (chat, reply false)
      else send chat (record {
        channel = channel;
        sender = if channel == 5 then recipient else sender;
        message = message;
        recipient =
            if channel == 4 || channel == 20 || channel == 5 then get_id recipient else 2 ^ 32 - 1;
      })

  -- the new state, and what the parameters become
  unfoldable pub nwnx_send_message : NwnxChat → Text → NwnxChat × Text
  nwnx_send_message chat parameters = elim (split_last delimiter parameters) [
    | none ↦ (chat, reply false)
    | some (before, message) ↦ elim (scan_parameters parameters) [
      | none ↦ (chat, reply false)
      | some parsed ↦ send_parsed chat message parsed
    ]
  ]

  -- the new state, and what the parameters become; `none` leaves them as they are
  unfoldable pub on_request : NwnxChat → Text → Text → Answer
  on_request chat request parameters =
      if starts_with (codes "GETID") request
      then done (chat, some (answer_id get_id parameters))
      else if starts_with (codes "LOGNPC") request
      then finish (record chat { process_npc = atoi parameters }) request parameters
      else if starts_with (codes "IGNORESILENT") request
      then finish (record chat { ignore_silent = atoi parameters }) request parameters
      else if starts_with (codes "SPEAK") request
      then (let (chat', answer) = nwnx_send_message chat parameters in done (chat', some answer))
      else if starts_with (codes "GETCHATSCRIPT") request
      then (do text ← copy_out 17 chat.chat_script; done (chat, some text))
      else finish chat request parameters

  -- the requests of a script one after another
  unfoldable pub perform_all : NwnxChat → List (Text × Text) → Outcome NwnxChat
  perform_all chat [] = done chat
  perform_all chat ((request, parameters) ∷ rest) = do
    (chat', answer) ← on_request chat request parameters
    perform_all chat' rest

  module _ (script : Text → ℕ → List (Text × Text)) where
    unfoldable pub run_script : NwnxChat → Text → ℕ → Outcome NwnxChat
    run_script chat name object = do
      chat' ← perform_all (record chat { script_run = true }) (script name object)
      done (record chat' { script_run = false })

    -- the two tests for a script
    unfoldable pub run_for : NwnxChat → ℕ → ℕ → ℕ → Outcome NwnxChat
    run_for chat mode id to =
        if is_nonzero chat.process_npc && not (id == server_id)
          || not (is_nonzero chat.process_npc) && id / 2 ^ 16 == 0x7fff
        then run_script chat chat.chat_script id
        else (if mode == 5 && id == server_id
            then run_script chat chat.serv_script to
            else done chat)

    -- after the message has been stored
    unfoldable pub process : NwnxChat → ℕ → ℕ → ℕ → Outcome (NwnxChat × Bool)
    process chat mode id to =
        if is_nonzero chat.ignore_silent && (mode == 13 || mode == 14)
        then done (chat, false)
        else (do chat' ← run_for chat mode id to; done (chat', chat'.supress_msg))

    -- the new state, and whether the engine shall drop the message
    unfoldable pub chat_message : NwnxChat → ℕ → ℕ → Option Text → ℕ → Outcome (NwnxChat × Bool)
    chat_message chat mode id none to = done (chat, false)
    chat_message chat mode id (some msg) to = do
      text ← stored chat.max_msg_len (mode % 256) msg to
      process (record chat { last_msg = text; supress_msg = false }) (mode % 256) id to

    -- the hook: the new state, and whether the engine's own function is called
    unfoldable pub chat_hook_proc : NwnxChat → ℕ → ℕ → Option Text → ℕ → Outcome (NwnxChat × Bool)
    chat_hook_proc chat mode id msg to =
        let chat' : NwnxChat = record chat { chat_this = true } in
        if chat.script_run
        then done (chat', true)
        else (do (chat'', drop) ← chat_message chat' mode id msg to; done (chat'', not drop))
