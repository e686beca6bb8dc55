-- ===== src/Mirror/Notes.antt =====
-- mirror/mirror.go: the texts of the notes.
use pktc.Common.{ℕ, Bool, Text, bytes, [], ◌++◌}
use pktc.Std.Quote.{quoted}
use pktc.Mirror.{Note, exchanged, same_at_both, key_material, peer_name, inner_set, inner_missing}

unfoldable pub on_form : Text → Text → Text
on_form name rest = bytes " on (" ++ (name ++ (bytes " ...)" ++ rest))

module _ (printable : ℕ → Bool) where
  unfoldable pub note_string : Note → Text
  unfolding on_form
  note_string (exchanged name) = bytes ":src and :dst exchanged" ++ on_form name []
  note_string (same_at_both key name) =
      bytes ":" ++ (key ++ on_form name (bytes " is the same at both ends"))
  note_string (key_material name) =
      bytes "key material"
      ++ on_form name (
          bytes
            ": each end holds its own private key and needs the other's public key, which no reading of this tree can supply")
  note_string (peer_name text) =
      bytes ":peer "
      ++ (quoted printable text
          ++ bytes " names this end's view of the far end; the far end needs a name for this one")
  note_string (inner_set name address) =
      bytes "inner address" ++ on_form name (bytes " set to " ++ address)
  note_string (inner_missing name) =
      bytes "inner address"
      ++ on_form name (
          bytes
            ": both ends share the prefix and differ in the host part, which this tree does not contain")
