-- ===== src/Smtp/Examples/Texts.antt =====
-- Texts, commands and login data of the SMTP client, at concrete values.
use scion_lwip_contrib.Base.{
  ◌↔◌, ◌+◌, ◌<◌, ◌≢◌, ◌↔◌, inl, true, false, [], ◌∷◌, ◌++◌, none, some, Bytes, codes, overwrite,
  copy_to, all_lt-AllLt, take, replicate, ◌≡◌, refl, arith,
}
use scion_lwip_contrib.Lwip.{Err, not_found}
use scion_lwip_contrib.Readers.{readers, readers-laws}
use scion_lwip_contrib.Smtp.Types.{Session}
use scion_lwip_contrib.Smtp.Base64.{smtp_base64_encode}
use scion_lwip_contrib.Smtp.Base64.Rfc.{rfc4648, smtp_base64_encode-rfc4648}
use scion_lwip_contrib.Smtp.Verify.{verify_loop, smtp_verify}
use scion_lwip_contrib.Smtp.Verify.Spec.{IsOneLine, IsLines, smtp_verify_iff}
use scion_lwip_contrib.Smtp.Response.{smtp_is_response_finished}
use scion_lwip_contrib.Smtp.Response.Total.{smtp_is_response_finished_total}
use scion_lwip_contrib.Smtp.Prepare.{smtp_prepare_mail}
use scion_lwip_contrib.Smtp.Prepare.Commands.{mail_too_long}
use scion_lwip_contrib.Smtp.Auth.{find_auth, smtp_prepare_auth_or_mail}
use scion_lwip_contrib.Smtp.Auth.Overflow.{smtp_prepare_auth_or_mail_overflow}
use scion_lwip_contrib.Smtp.Send.{
  Settings, initial_settings, StartReplies, Started, Request, copy_auth, checks_pass,
  connect_or_wait, read_bytes, copied_session, smtp_set_auth, smtp_send_mail_alloced,
  smtp_send_mail,
}
use scion_lwip_contrib.Smtp.Send.Login.{smtp_set_auth_lem, smtp_set_auth_refused}
use scion_lwip_contrib.Smtp.Send.Start.{
  IsVerified, smtp_send_mail_alloced_without_auth, smtp_send_mail_alloced_leaks,
  smtp_send_mail-IsNew,
}
use scion_lwip_contrib.Smtp.Callbacks.Delivery.Run.{IsNew}
use scion_lwip_contrib.Smtp.Examples.{mail}

smtp_base64_encode-rfc4648_example :
    smtp_base64_encode 100 (codes "abc") ≡ some (rfc4648 (codes "abc") ++ codes "A===")
smtp_base64_encode-rfc4648_example =
    smtp_base64_encode-rfc4648 100 (codes "abc") (all_lt-AllLt 256 (codes "abc") refl) (omega arith)

smtp_verify_iff_example :
    ((smtp_verify (codes "a\r\nb") false ≡ Err.ok) ↔ IsOneLine (codes "a\r\nb"))
    × ((smtp_verify (codes "a\r\nb") true ≡ Err.ok) ↔ IsLines false (codes "a\r\nb"))
smtp_verify_iff_example = smtp_verify_iff (codes "a\r\nb") (all_lt-AllLt 256 (codes "a\r\nb") refl)

smtp_is_response_finished_total_example :
    smtp_is_response_finished readers (some (codes "250-x\r\n250 y\r\n")) ≢ none
smtp_is_response_finished_total_example =
    smtp_is_response_finished_total readers readers-laws (codes "250-x\r\n250 y\r\n") (omega arith)

abbrev long_mail : Session
long_mail = record mail { sender = replicate 300 97; to = replicate 300 97 }

mail_too_long_example : smtp_prepare_mail long_mail ≡ none
mail_too_long_example = mail_too_long long_mail refl (omega arith) (omega arith)

-- A reply with an AUTH line of more than 300 bytes.
abbrev long_reply : Bytes
long_reply = codes "250 AUTH " ++ (replicate 300 97 ++ codes "\r\n")

auth_found : find_auth readers long_reply ≡ 4
unfolding find_auth
auth_found = refl

long_line :
    (find_auth readers long_reply ≢ not_found)
    × (readers.memfind long_reply (codes "\r\n") (find_auth readers long_reply) ≢ not_found)
    × (find_auth readers long_reply + 256
        < readers.memfind long_reply (codes "\r\n") (find_auth readers long_reply))
long_line = rw auth_found (λ e. omega (arith, e), λ e. omega (arith, e), omega arith)

smtp_prepare_auth_or_mail_overflow_example :
    smtp_prepare_auth_or_mail readers (record mail { p = some long_reply }) ≡ none
smtp_prepare_auth_or_mail_overflow_example =
    smtp_prepare_auth_or_mail_overflow readers readers-laws (record mail { p = some long_reply })
      long_reply refl long_line.0 long_line.1 long_line.2

smtp_set_auth_lem_example :
    (h : Settings) × (smtp_set_auth (some (codes "me")) (some (codes "pw")) initial_settings
      ≡ some (h, Err.ok))
    × (take h.auth_plain_len h.auth_plain ≡ 0 ∷ (codes "me" ++ 0 ∷ codes "pw"))
    × (h.username ≡ some 1)
    × (h.pass ≡ some 4)
smtp_set_auth_lem_example =
    smtp_set_auth_lem (codes "me") (codes "pw") initial_settings refl (omega arith) (omega arith)

-- A login is stored, and then one is refused.
abbrev logged_in : Settings
logged_in = record initial_settings {
  username = some 1;
  pass = some 4;
  auth_plain = codes "\0me\0pw" ++ replicate 61 0;
  auth_plain_len = 6;
}

smtp_set_auth_refused_example :
    (h : Settings) × (smtp_set_auth (some (replicate 33 97)) (some []) logged_in
      ≡ some (h, Err.arg))
    × (take 64 h.auth_plain ≡ replicate 64 0xfa)
    × (h.auth_plain_len ≡ 6)
    × (h.username ≡ some 1)
    × (h.pass ≡ some 4)
smtp_set_auth_refused_example =
    smtp_set_auth_refused (replicate 33 97) [] logged_in refl (inl (omega arith))

abbrev named : Settings
named = record initial_settings { server = codes "mail.example.org" ++ replicate 241 0 }

abbrev all_well : StartReplies
all_well = record { has_memory = true; has_pcb = true; dns = Err.ok; connect = Err.ok }

mail-IsVerified : IsVerified mail
unfolding smtp_verify verify_loop
mail-IsVerified = record { to = refl; sender = refl; subject = refl; text = refl }

smtp_send_mail_alloced_without_auth_example :
    smtp_send_mail_alloced all_well initial_settings mail ≡ none
smtp_send_mail_alloced_without_auth_example =
    smtp_send_mail_alloced_without_auth all_well initial_settings mail mail-IsVerified refl refl
      refl

abbrev two_lines : Session
two_lines = record mail { text = codes "a\r\nb" }

abbrev refused_start : Started
refused_start = record { err = Err.arg; session = none; freed = false }

two_lines_refused : smtp_send_mail_alloced all_well logged_in two_lines ≡ some refused_start
unfolding smtp_send_mail_alloced checks_pass smtp_verify verify_loop
two_lines_refused = refl

smtp_send_mail_alloced_leaks_example :
    ((refused_start.session ≡ none) × (refused_start.freed ≡ false)) ↔ (¬ IsVerified two_lines)
smtp_send_mail_alloced_leaks_example =
    smtp_send_mail_alloced_leaks all_well logged_in two_lines refused_start two_lines_refused

abbrev order : Request
order = record {
  sender = codes "a@b";
  to = codes "c@d";
  subject = codes "s";
  text = codes "hello";
  callback = true;
  static_data = false;
}

started :
    (st : Started) × (live : Session) × (smtp_send_mail 500 all_well logged_in order ≡ some st)
    × (st.session ≡ some live)
unfolding smtp_send_mail copied_session smtp_send_mail_alloced checks_pass smtp_verify verify_loop
    copy_auth read_bytes copy_to overwrite connect_or_wait
started = (_, _, refl, refl)

smtp_send_mail-IsNew_example :
    IsNew started.1
    × (started.0.err ≡ Err.ok)
    × (started.1.sender ≡ codes "a@b")
    × (started.1.to ≡ codes "c@d")
    × (started.1.subject ≡ codes "s")
    × (started.1.text ≡ codes "hello")
    × (started.1.callback ≡ true)
smtp_send_mail-IsNew_example = smtp_send_mail-IsNew 500 all_well logged_in order started.2 started.3
