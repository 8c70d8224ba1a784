-- ===== src/Cli/Urls.antt =====
-- `readURLLines`, `readURLFile`, `collectURLs` and `collectAllURLs`.
use deckle.Base.{
  ℕ, ◌+◌, Bool, ◌&&◌, ◌||◌, Option, none, some, ◌>>=◌, List, [], ◌∷◌, ◌++◌, length, drop, take,
  Text, codes, ◌=?◌, ◌==◌, leb, has_prefix, has_suffix, trim_suffix, last_index, if◌then◌else◌,
}
use deckle.Base.Utf8.{trim_bytes}

-- An `io.Reader`: the bytes that it gives, and whether it ends in an error.
pub record Reader : Type 0 where
  pub content : Text
  pub fails : Bool

-- `bufio.MaxScanTokenSize`
abbrev pub max_scan_token_size : ℕ
max_scan_token_size = 65536

-- `dropCR` of `bufio.ScanLines`
unfoldable pub drop_cr : Text → Text
drop_cr [] = []
drop_cr (c ∷ t) = let rest = drop_cr t in if c == b'\r' && t =? [] then [] else c ∷ rest

abbrev pub prepend : Text → Option (List Text) → Option (List Text)
prepend line none = none
prepend line (some lines) = some (line ∷ lines)

-- The lines that `scanner.Scan()` gives; `none` stands for `bufio.ErrTooLong`. The first argument
-- is the part of the current line that has been read.
unfoldable pub scan_lines : Text → Text → Option (List Text)
scan_lines current [] = if current =? [] then some [] else some (drop_cr current ∷ [])
scan_lines current (c ∷ input) =
    let ended = prepend (drop_cr current) (scan_lines [] input) in
    let longer = scan_lines (current ++ (c ∷ [])) input in
    if c == b'\n'
    then ended
    else if leb max_scan_token_size (length current + 1)
    then none
    else longer

-- The body of the loop: a line is dropped if it is blank or a comment.
unfoldable pub url_lines : List Text → List Text
url_lines [] = []
url_lines (l ∷ lines) =
    let line = trim_bytes l in
    if line =? [] || has_prefix line (codes "#") then url_lines lines else line ∷ url_lines lines

-- `readURLLines`; `none` stands for the error, with which the callers drop the URLs
unfoldable pub read_url_lines : Reader → Option (List Text)
read_url_lines r = do
  lines ← scan_lines [] r.content
  if r.fails then none else some (url_lines lines)

-- The part of a path behind its last slash
unfoldable pub after_slash : Text → Text
after_slash path = elim (last_index path (codes "/")) [ none ↦ path | some i ↦ drop (i + 1) path ]

unfoldable pub trim_slashes : Text → Text
trim_slashes [] = []
trim_slashes (c ∷ path) =
    let rest = trim_slashes path in if c == b'/' && rest =? [] then [] else c ∷ rest

-- `filepath.Base`, of a path that is not empty
unfoldable pub file_base : Text → Text
file_base path =
    let name = after_slash (trim_slashes path) in if name =? [] then codes "/" else name

-- `strings.TrimSuffix(name, filepath.Ext(name))`
unfoldable pub without_ext : Text → Text
without_ext name = elim (last_index name (codes ".")) [ none ↦ name | some i ↦ take i name ]

-- What `collectURLs` returns: the URLs, and the name of the first .txt file.
pub record Collected : Type 0 where
  pub urls : List Text
  pub txt_filename : Text

-- `os.Open`
module _ (open_file : Text → Option Reader) where
  -- `readURLFile`
  unfoldable pub read_url_file : Text → Option (List Text)
  read_url_file path = do r ← open_file path; read_url_lines r

  -- The loop of `collectURLs`, from the URLs and the name that it has so far; `none` is the error
  unfoldable pub collect_from : Collected → List Text → Option Collected
  collect_from c [] = some c
  collect_from c (arg ∷ args) =
      let from_file = do
        file_urls ← read_url_file arg
        collect_from
            (record {
              urls = c.urls ++ file_urls;
              txt_filename =
                  if c.txt_filename =? []
                  then trim_suffix (after_slash arg) (codes ".txt")
                  else c.txt_filename;
            })
            args
      in let direct = collect_from (record c { urls = c.urls ++ (arg ∷ []) }) args in
        if has_suffix arg (codes ".txt") then from_file else direct

  -- `collectURLs`
  unfoldable pub collect_urls : List Text → Option Collected
  collect_urls = collect_from (record { urls = []; txt_filename = [] })

  -- The block of the -i flag
  unfoldable pub collect_input : Text → Option Collected
  collect_input input_file =
      let from_file = do
        file_urls ← read_url_file input_file
        some (record { urls = file_urls; txt_filename = without_ext (file_base input_file) })
      in if input_file =? [] then some (record { urls = []; txt_filename = [] }) else from_file

  unfoldable pub read_stdin : Option Reader → Option (List Text)
  read_stdin none = some []
  read_stdin (some r) = read_url_lines r

  -- `collectAllURLs`: the -i file, then the arguments, then standard input
  unfoldable pub collect_all_urls : Text → List Text → Option Reader → Option Collected
  collect_all_urls input_file args stdin = do
    first ← collect_input input_file
    more ← collect_urls args
    piped ← read_stdin stdin
    some (record {
      urls = first.urls ++ (more.urls ++ piped);
      txt_filename = if first.txt_filename =? [] then more.txt_filename else first.txt_filename;
    })
