-- ===== src/Linux/Creates.antt =====
-- Which commands of a script make a device.
use pktc.Common.{◌≡◌, refl, Text, bytes, List, [], ◌∷◌, ◌++◌, inl, inr, All}
use pktc.Command.{Command, Script, command}
use pktc.Tile.Choice.{Among}

-- A command of the script makes the device: it is `ip link add` with its name among the words.
pub record Creates (dev : Text) (cmds : Script) : Type 0 where
  pub cmd : Command
  pub emitted : Among cmd cmds
  pub words : List Text
  pub adds : cmd.argv ≡ bytes "ip" ∷ bytes "link" ∷ bytes "add" ∷ words
  pub named : Among dev words

pub Among-append_left : {A : Type 0} (a : A) (xs ys : List A) → Among a xs → Among a (xs ++ ys)
Among-append_left a [] ys m = absurd m
Among-append_left a (x ∷ xs) ys (inl here) = inl here
Among-append_left a (x ∷ xs) ys (inr later) = inr (Among-append_left a xs ys later)

pub Among-append_right : {A : Type 0} (a : A) (xs ys : List A) → Among a ys → Among a (xs ++ ys)
Among-append_right a [] ys m = m
Among-append_right a (x ∷ xs) ys m = inr (Among-append_right a xs ys m)

pub Creates-append_left : {dev : Text} (xs ys : Script) → Creates dev xs → Creates dev (xs ++ ys)
Creates-append_left xs ys c = record {
  cmd = c.cmd;
  emitted = Among-append_left c.cmd xs ys c.emitted;
  words = c.words;
  adds = c.adds;
  named = c.named;
}

pub Creates-append_right : {dev : Text} (xs ys : Script) → Creates dev ys → Creates dev (xs ++ ys)
Creates-append_right xs ys c = record {
  cmd = c.cmd;
  emitted = Among-append_right c.cmd xs ys c.emitted;
  words = c.words;
  adds = c.adds;
  named = c.named;
}

-- the first command makes the device
pub first-Creates :
    (dev : Text) (words : List Text) (why : Text) (cmds : Script)
    → Among dev words
    → Creates dev (command why (bytes "ip" ∷ bytes "link" ∷ bytes "add" ∷ words) ∷ cmds)
first-Creates dev words why cmds m = record {
  cmd = command why (bytes "ip" ∷ bytes "link" ∷ bytes "add" ∷ words);
  emitted = inl refl;
  words = words;
  adds = refl;
  named = m;
}

-- a longer script makes what a shorter one does
pub All-Creates-append_left :
    (devs : List Text) (xs ys : Script)
    → All (λ d. Creates d xs) devs
    → All (λ d. Creates d (xs ++ ys)) devs
All-Creates-append_left [] xs ys a = tt
All-Creates-append_left (d ∷ devs) xs ys (c, a) =
    (Creates-append_left xs ys c, All-Creates-append_left devs xs ys a)
