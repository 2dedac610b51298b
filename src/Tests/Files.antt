-- ===== src/Tests/Files.antt =====
-- SIPEngine/config_file.c, SIPEngine/config.c and SIPEngine/addressbook.c on small files.
use furikup.Prelude.{ℕ, zero, suc, pos, List, [], ◌∷◌, some, ◌≡◌, refl, arith, codes, replicate}
use furikup.CString.{strncpy, strcase_eq, atoi}
use furikup.CString.Laws.{print_lines}
use furikup.Config.{initial_config}
use furikup.Config.File.{Setup, handle_option, parse_config_file}
use furikup.Config.Line.{Setting}
use furikup.Config.Roundtrip.{
  print_settings, AreSettings, and_then, apply_settings, return_code,
  parse_config_file-print_settings,
}
use furikup.AddressBook.{Contact, no_contact, empty_book, parse_addressbook, announced, overflow}
use furikup.AddressBook.Line.{IsContact}
use furikup.AddressBook.Roundtrip.{
  AreContacts, file_of, parse_addressbook-file_of, contacts_overflow,
}

abbrev pub some_settings : List Setting
some_settings =
    record { option = codes "Server"; value = codes "sip.net" }
    ∷ record { option = codes "stunport"; value = codes "3479" }
    ∷ []

abbrev pub start : Setup
start = record { config = initial_config; errors = [] }

some_settings-AreSettings : AreSettings some_settings
some_settings-AreSettings = ground arith

parse_config_file-print_settings_example :
    parse_config_file (some (print_lines (print_settings some_settings))) start
    ≡ and_then (apply_settings some_settings start) (return_code (pos 0))
parse_config_file-print_settings_example =
    parse_config_file-print_settings some_settings start some_settings-AreSettings

-- The settings themselves.
some_settings_run :
    apply_settings some_settings start
    ≡ some (record start {
      config = record initial_config {
        server = strncpy 128 (codes "sip.net");
        stun_port = pos 3479;
      };
    })
unfolding handle_option strncpy strcase_eq atoi
some_settings_run = refl

abbrev pub ann : Contact
ann = record {
  nickname = codes "ann";
  first_name = codes "Ann";
  last_name = codes "Lee";
  sip_uri = codes "sip:ann@sip.net";
}

ann-IsContact : IsContact ann
ann-IsContact = ground arith

anns-AreContacts : (n : ℕ) → AreContacts (replicate n ann)
anns-AreContacts zero = tt
anns-AreContacts (suc n) = (ann-IsContact, anns-AreContacts n)

parse_addressbook-file_of_example :
    parse_addressbook (some (file_of (ann ∷ []))) empty_book
    ≡ announced (record { contacts = ann ∷ replicate 19 no_contact; max_contact = 1 })
parse_addressbook-file_of_example =
    parse_addressbook-file_of (ann ∷ []) (anns-AreContacts 1) (omega arith)

contacts_overflow_example :
    parse_addressbook (some (file_of (replicate 21 ann))) empty_book ≡ overflow
contacts_overflow_example = contacts_overflow (replicate 21 ann) (anns-AreContacts 21) (omega arith)
