-- ===== src/Main/Nzb.antt =====
-- ghetto_xml_escape and write_nzb of main.cc.
pub mod Escape
pub mod Named
pub mod Listed
use post2usenet.Common.{
  ℕ, zero, suc, ◌+◌, List, [], ◌∷◌, ◌++◌, Bytes, codes, put, Option, none, some, get_elem?, ◌==◌,
  if◌then◌else◌, add_size,
}
use post2usenet.Common.Decimal.{to_decimal}
use post2usenet.Common.Result.{Result, ok, err, ◌>>=◌}
use post2usenet.Boost.{FileSystem, Replacing}
use post2usenet.Config.{ProgConfig, or_else}
use post2usenet.Fileset.{
  Fileset, FilepieceKey, get_num_files, get_num_pieces, get_usenet_subject, get_usenet_message_id,
}
use post2usenet.Main.{lookup}

unfoldable pub ghetto_xml_escape : Replacing → Bytes → Bytes
ghetto_xml_escape rep str =
    let quoted = rep.replace_all str (codes "\"") (codes "&quot;") in
    let apos = rep.replace_all quoted (codes "'") (codes "&apos;") in
    let lower = rep.replace_all apos (codes "<") (codes "&lt;") in
    let upper = rep.replace_all lower (codes ">") (codes "&gt;") in
    rep.replace_all upper (codes ">") (codes "&amp;")

-- What ends write_nzb: std::out_of_range, or a piece with no size, which is undefined behaviour.
pub data NzbFault : Type 0 where
  out_of_range no_size : NzbFault

pub found {ℓ} : {A : Type ℓ} → NzbFault → Option A → Result NzbFault A
found fault none = err fault
found fault (some a) = ok a

-- `find` in a map of sizes.
unfoldable pub find_size : List (ℕ × ℕ) → ℕ → Option ℕ
find_size [] piece_index = none
find_size ((j, size) ∷ rest) piece_index =
    let more = find_size rest piece_index in if j == piece_index then some size else more

-- A message id without its angle brackets.
pub bare_id : Replacing → Bytes → Bytes
bare_id rep msg_id = rep.replace_all (rep.replace_all msg_id (codes "<") []) (codes ">") []

pub segment : Bytes → ℕ → ℕ → Bytes
segment msg_id piece_index size = put (
    codes "<segment bytes=\""
    ∷ to_decimal size
    ∷ codes "\" number=\""
    ∷ to_decimal (add_size piece_index 1)
    ∷ codes "\">"
    ∷ msg_id
    ∷ codes "</segment>\n"
    ∷ [])

pub group_lines : List Bytes → Bytes
group_lines [] = []
group_lines (group ∷ groups) =
    put (codes "<group>" ∷ group ∷ codes "</group>\n" ∷ group_lines groups ∷ [])

-- The nonce of the run, but for a piece that has been given another.
pub actual_nonce : Bytes → List (FilepieceKey × Bytes) → ℕ → ℕ → Bytes
unfolding lookup
actual_nonce nonce exceptions i piece_index =
    or_else (lookup (record { file_index = i; piece_index = piece_index }) exceptions) nonce

module _ (rep : Replacing) (domain nonce : Bytes) (exceptions : List (FilepieceKey × Bytes)) where
  pub write_segment : List (ℕ × ℕ) → ℕ → ℕ → Result NzbFault Bytes
  unfolding actual_nonce segment bare_id found find_size
  write_segment sizes i piece_index =
      let msg_id =
        get_usenet_message_id (actual_nonce nonce exceptions i piece_index) domain i piece_index in
      found no_size (find_size sizes piece_index) >>= λ size.
      ok (segment (bare_id rep msg_id) piece_index size)

  -- The segments of a file that are left.
  pub write_segments : List (ℕ × ℕ) → ℕ → ℕ → ℕ → Result NzbFault Bytes
  unfolding write_segment
  write_segments sizes i zero piece_index = ok []
  write_segments sizes i (suc left) piece_index = do
    line ← write_segment sizes i piece_index
    rest ← write_segments sizes i left (piece_index + 1)
    ok (line ++ rest)

-- The body of the loop over the files; `piece_sizes[i]` is looked at for a piece only.
module _ (fs : FileSystem) (rep : Replacing) (cfg : ProgConfig) (epoch_time nonce : Bytes) where
  file_head : Bytes → Bytes
  unfolding ghetto_xml_escape group_lines
  file_head subject = put (
      codes "<file poster=\""
      ∷ ghetto_xml_escape rep cfg.from
      ∷ codes "\" date=\""
      ∷ epoch_time
      ∷ codes "\" subject=\""
      ∷ ghetto_xml_escape rep subject
      ∷ codes "\">\n<groups>\n"
      ∷ group_lines cfg.groups
      ∷ codes "</groups>\n<segments>\n"
      ∷ [])

  pub write_file :
      Fileset → List (List (ℕ × ℕ)) → List (FilepieceKey × Bytes) → ℕ → Result NzbFault Bytes
  unfolding file_head write_segments found
  write_file files piece_sizes exceptions i = do
    subject ← found out_of_range (get_usenet_subject fs files cfg.subject i 0)
    num_pieces ← found out_of_range (get_num_pieces files i)
    segments ←
        write_segments rep cfg.msgiddomain nonce exceptions (or_else (get_elem? piece_sizes i) []) i
          num_pieces 0
    ok (put (file_head subject ∷ segments ∷ codes "</segments>\n</file>\n" ∷ []))

  pub write_files :
      Fileset → List (List (ℕ × ℕ)) → List (FilepieceKey × Bytes) → ℕ → ℕ → Result NzbFault Bytes
  unfolding write_file
  write_files files piece_sizes exceptions zero i = ok []
  write_files files piece_sizes exceptions (suc left) i = do
    text ← write_file files piece_sizes exceptions i
    rest ← write_files files piece_sizes exceptions left (i + 1)
    ok (text ++ rest)

  pub write_nzb :
      Fileset → List (List (ℕ × ℕ)) → List (FilepieceKey × Bytes) → Result NzbFault Bytes
  unfolding write_files
  write_nzb files piece_sizes exceptions = do
    text ← write_files files piece_sizes exceptions (get_num_files files) 0
    ok (
        put (
          codes "<?xml version=\"1.0\" encoding=\"UTF-8\"?>\n"
          ∷ codes "<!DOCTYPE nzb PUBLIC \"-//newzBin//DTD NZB 1.1//END\" "
          ∷ codes "\"http://www.newzbin.com/DTD/nzb/nzb-1.1.dtd\">\n"
          ∷ codes "<nzb xmlns=\"http://www.newzbin.com/DTD/2003/nzb\">\n\n"
          ∷ text
          ∷ codes "</nzb>\n"
          ∷ []))
