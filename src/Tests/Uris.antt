-- ===== src/Tests/Uris.antt =====
-- Runs of the URI parser, and the witnesses.
use disc.Base.{◌+◌, ◌≡◌, refl, some, none, [], ◌∷◌, length, if◌then◌else◌, one_of}
use disc.Utils.{Bytes}
use disc.Uri.{no_uri, scan, step, finish, starts_with, has_scheme, aaa_parse_uri, ransport}
use disc.Uri.Inside.{ends_in_eq, IsWithin, aaa_parse_uri-IsWithin}
use disc.Uri.Rounds.{decimal}
use disc.Uri.Print.{parts, print_uri, aaa_parse_uri-print_uri}

-- "aaa://h;transport="
abbrev no_value : Bytes
no_value = b'a' ∷ b'A' ∷ b'a' ∷ b':' ∷ b'/' ∷ b'/' ∷ b'h' ∷ b';' ∷ b't' ∷ ransport

-- The value is the byte behind the end of the 18 bytes.
transport_behind_end :
    aaa_parse_uri no_value
    ≡ some (record no_uri {
      host = record { start = some 6; len = 1 };
      params = record { start = some 8; len = 11 };
      transport = record { start = some 18; len = 1 };
    })
unfolding aaa_parse_uri has_scheme scan step finish starts_with one_of
transport_behind_end = refl

-- "aaa://:3868"; the first byte of the host is ':'.
colon_host :
    aaa_parse_uri (b'a' ∷ b'a' ∷ b'a' ∷ b':' ∷ b'/' ∷ b'/' ∷ b':' ∷ b'3' ∷ b'8' ∷ [])
    ≡ some (record no_uri { host = record { start = some 6; len = 3 } })
unfolding aaa_parse_uri has_scheme scan step finish one_of
colon_host = refl

no_host : aaa_parse_uri (b'a' ∷ b'a' ∷ b'a' ∷ b':' ∷ b'/' ∷ b'/' ∷ []) ≡ none
unfolding aaa_parse_uri has_scheme scan step finish one_of
no_host = refl

aaa_parse_uri-IsWithin_example :
    IsWithin (length no_value + (if ends_in_eq no_value then 1 else 0)) (aaa_parse_uri no_value)
aaa_parse_uri-IsWithin_example = aaa_parse_uri-IsWithin no_value

-- "aaa://ab:70000;transport=tcp;protocol=x"
aaa_parse_uri-print_uri_example :
    (let buf : Bytes =
        print_uri
          (b'a' ∷ b'b' ∷ [])
          (b'7' ∷ b'0' ∷ b'0' ∷ b'0' ∷ b'0' ∷ [])
          (b't' ∷ b'c' ∷ b'p' ∷ [])
          (b'x' ∷ []) in
      parts buf (aaa_parse_uri buf))
    ≡ some (record {
      host = b'a' ∷ b'b' ∷ [];
      port = b'7' ∷ b'0' ∷ b'0' ∷ b'0' ∷ b'0' ∷ [];
      transport = b't' ∷ b'c' ∷ b'p' ∷ [];
      protocol = b'x' ∷ [];
      port_no = 4464;
    })
unfolding decimal
aaa_parse_uri-print_uri_example =
    aaa_parse_uri-print_uri b'a' (b'b' ∷ []) (b'7' ∷ b'0' ∷ b'0' ∷ b'0' ∷ b'0' ∷ []) b't'
      (b'c' ∷ b'p' ∷ []) b'x' [] (unfold one_of in refl, tt)
      (refl, (refl, (refl, (refl, (refl, tt))))) (refl, (refl, tt)) tt
