-- ===== src/Chat/Tests.antt =====
-- Runs of the chat plugin, and the theorems at concrete messages.
use nwnx2_windows.Prelude.{
  print_hex, ℕ, ◌^◌, ◌≡◌, refl, true, false, none, some, List, [], ◌∷◌, ◌++◌, done, fault, Returns,
  arith, codes, Text, pos, if◌then◌else◌, ◌==◌, take, signed32, print_int, print_nat, strtol16,
  bits32, split_last, scan_hex, scan_decimal, scan_byte,
}
use nwnx2_windows.Chat.{
  NwnxChat, Sent, header, stored, copy_out, on_request, answer_id, cut_blank, chat_message, finish,
  le_signed, nwnx_send_message, send_parsed, scan_parameters, scan_recipient, scan_channel, reply,
}
use nwnx2_windows.Chat.Dropping.{chat_message-Decided, drops}
use nwnx2_windows.Chat.Sending.{format, nwnx_send_message-format}

abbrev plugin : NwnxChat
plugin = record {
  process_npc = pos 0;
  ignore_silent = pos 1;
  max_msg_len = 1000;
  chat_script = codes "chat_script";
  serv_script = codes "server_script";
  last_msg = [];
  supress_msg = false;
  script_run = false;
  chat_this = true;
  sent = [];
  log = [];
}

abbrev player_ids : ℕ → ℕ
player_ids object = if object == 0x7ffffffe then 7 else 0

abbrev delivers : Sent → ℕ
delivers m = 1

-- the chat script drops what one player says
abbrev scripts : Text → ℕ → List (Text × Text)
scripts name object =
    (codes "TEXT", [])
    ∷ (codes "SUPRESS", if object == 0x7ffffffe then codes "1" else codes "0")
    ∷ []

kept_text : stored 5 1 (codes "hello there") 7 ≡ done (codes "01         7hello")
unfolding stored header copy_out print_nat print_int signed32
kept_text = refl

-- "%d" of a negative recipient with eleven characters, and a message of the configured length
no_room : stored 5 1 (codes "hello") (2 ^ 31) ≡ fault
unfolding stored header copy_out print_nat print_int signed32
no_room = refl

id_found : answer_id player_ids (codes "7ffffffe        ") ≡ codes "7"
unfolding answer_id cut_blank strtol16 bits32 signed32 print_int
id_found = refl

no_object : answer_id player_ids (codes " 7ffffffe") ≡ codes "-1"
unfolding answer_id cut_blank strtol16 bits32 signed32 print_int
no_object = refl

private_to_creature :
    nwnx_send_message player_ids delivers plugin (format 5 0x100 4 (codes "psst"))
    ≡ (plugin, codes "0")
unfolding format nwnx_send_message split_last scan_parameters scan_recipient scan_channel scan_hex
    scan_decimal scan_byte send_parsed le_signed signed32 print_hex print_nat reply
private_to_creature = refl

-- Outside a chat script the mark is not set.
unheard : on_request player_ids delivers plugin (codes "SUPRESS") (codes "1") ≡ done (plugin, none)
unfolding on_request finish
unheard = refl

chat_message-Decided_example :
    Returns
      (chat_message player_ids delivers scripts plugin 1 0x7ffffffe (some (codes "/secret")) 7)
      (λ p.
        (p.1 ≡ drops scripts plugin 1 0x7ffffffe 7)
        × (p.0.script_run ≡ false)
        × (p.0.last_msg ≡ header 1 7 ++ take 1000 (codes "/secret")))
unfolding signed32 print_int
chat_message-Decided_example =
    chat_message-Decided scripts player_ids delivers plugin 1 0x7ffffffe (codes "/secret") 7 refl
      (omega arith) (omega arith) (omega arith) (omega arith)

abbrev in_script : NwnxChat
in_script = record plugin { script_run = true }

abbrev whisper : Sent
whisper = record {
  channel = 4;
  sender = 5;
  message = codes "psst";
  recipient = player_ids 0x7ffffffe;
}

nwnx_send_message-format_example :
    nwnx_send_message player_ids delivers in_script (format 5 0x7ffffffe 4 (codes "psst"))
    ≡ (record in_script { sent = whisper ∷ [] }, codes "1")
unfolding le_signed signed32
nwnx_send_message-format_example =
    nwnx_send_message-format player_ids delivers in_script 5 0x7ffffffe 4 (codes "psst")
      (omega arith) (omega arith) (omega arith) (omega arith) refl
