-- ===== src/Path.antt =====
-- src/path.c: operations on paths. A C string is the list of its characters, less the NUL at its end; a
-- buffer is a list of characters. `none` is an access outside a buffer.
pub mod Names
mod Tests
use moonsugar.Prelude.{
  ℕ, zero, suc, ◌+◌, ◌-◌, Bool, true, false, not, ◌&&◌, Option, none, some, List, [], ◌∷◌, ◌++◌,
  length, get_elem?, get_or, set as set_elem, take, drop, replicate, u32, sub32, ltb, leb, ◌==◌,
  if◌then◌else◌, ◌>>=◌,
}
use moonsugar.Api.{MsResult, success, length as result_length}

-- `MS_PATH_SEP`, `MS_PATH_WIN32_SEP`, `MS_PATH_WIN32_DRIVE_SEP` and `MS_EXT_SEP`.
abbrev pub path_sep : ℕ
path_sep = 47

abbrev pub path_win32_sep : ℕ
path_win32_sep = 92

abbrev pub path_win32_drive_sep : ℕ
path_win32_drive_sep = 58

abbrev pub ext_sep : ℕ
ext_sep = 46

-- `buff[i] = c`.
abbrev pub put : List ℕ → ℕ → ℕ → Option (List ℕ)
put buff i c = if ltb i (length buff) then some (set_elem buff i c) else none

-- `memcpy(buff + i, chars, ...)`; with the NUL at the end it is `strcpy` too.
abbrev pub copy : List ℕ → ℕ → List ℕ → Option (List ℕ)
copy buff i chars =
    if leb (i + length chars) (length buff)
    then some (take i buff ++ (chars ++ drop (i + length chars) buff))
    else none

-- `strncpy`: exactly `n` characters are written, with NULs behind the string.
abbrev pub copy_padded : List ℕ → List ℕ → ℕ → Option (List ℕ)
copy_padded buff chars n = copy buff 0 (take n (chars ++ replicate n 0))

-- The first loop of `ms_path_get_extension`, and the increment behind it: where the file name begins.
pub name_start : ℕ → List ℕ → ℕ
name_start zero s = 0
name_start (suc i) s = let rest = name_start i s in if get_or s i 0 == path_sep then suc i else rest

-- Its second loop: where the extension begins.
pub extension_start : ℕ → ℕ → List ℕ → ℕ
extension_start zero i s = i
extension_start (suc rounds) i s =
    let rest = extension_start rounds (i + 1) s in if get_or s i 0 == ext_sep then i + 1 else rest

-- `ms_path_get_extension`.
pub get_extension : List ℕ → List ℕ → ℕ → Option (MsResult × List ℕ)
unfolding name_start extension_start
get_extension s buff buff_len =
    if ltb (u32 (length s - i)) buff_len
    then (copy buff 0 (drop i s ++ (0 ∷ [])) >>= λ buff. some (success, buff))
    else some (result_length, buff)
  where
    start : ℕ
    start = name_start (length s) s

    i : ℕ
    i = extension_start (length s - start) start s

-- The loop of `ms_path_get_filename`, at offset `p`.
pub filename_from : List ℕ → ℕ → ℕ → ℕ
filename_from [] p filename_offset = filename_offset
filename_from (c ∷ cs) p filename_offset =
    filename_from cs (p + 1) (if c == path_sep then u32 (p + 1) else filename_offset)

-- `ms_path_get_filename`; a buffer of no characters has no last one.
pub get_filename : List ℕ → List ℕ → ℕ → Option (MsResult × List ℕ)
unfolding filename_from
get_filename s buff buff_len = copy_padded buff (drop (filename_from s 0 0) s) buff_len >>= λ buff.
    if leb (length buff) (sub32 buff_len 1)
    then none
    else some ((if get_or buff (sub32 buff_len 1) 0 == 0 then success else result_length), buff)

-- The loop of `ms_path_get_parent`: the offset it ends at, the last separator, and the buffer.
pub parent_from : List ℕ → ℕ → ℕ → List ℕ → ℕ → Option (ℕ × ℕ × List ℕ)
parent_from [] offset sep_offset buff buff_len = some (offset, sep_offset, buff)
parent_from (c ∷ cs) offset sep_offset buff buff_len =
    let sep = if c == path_sep then offset else sep_offset in
    let rest = (put buff offset c >>= λ buff. parent_from cs (offset + 1) sep buff buff_len) in
    if offset == buff_len then some (offset, sep, buff) else rest

-- `ms_path_get_parent`.
pub get_parent : List ℕ → List ℕ → ℕ → Option (MsResult × List ℕ)
unfolding parent_from
get_parent s buff buff_len = parent_from s 0 0 buff buff_len >>= λ out.
    let (offset, sep_offset, buff) = out in
    if offset == buff_len
    then some (result_length, buff)
    else if offset == 0
    then (put buff offset 0 >>= λ buff. some (success, buff))
    else ((if sep_offset == 0 && ltb 1 buff_len then get_elem? buff 1 else some 0) >>= λ drive.
        if drive == path_win32_drive_sep
        then (if ltb buff_len 3
            then some (result_length, buff)
            else (put buff 2 0 >>= λ buff. some (success, buff)))
        else (put buff sep_offset 0 >>= λ buff. some (success, buff)))

-- The loop of `ms_path_convert_slashes`, with the NUL written behind it.
pub convert_from : List ℕ → ℕ → List ℕ → Option (List ℕ)
convert_from [] i buff = put buff i 0
convert_from (c ∷ cs) i buff = put buff i (if c == path_win32_sep then path_sep else c) >>= λ buff.
    convert_from cs (i + 1) buff

-- `ms_path_convert_slashes`.
pub convert_slashes : List ℕ → List ℕ → Option (List ℕ)
unfolding convert_from
convert_slashes s buff = convert_from s 0 buff

-- The second half of `ms_path_join`, from where `joint` is set.
pub join_second : List ℕ → List ℕ → ℕ → ℕ → Option (MsResult × List ℕ)
join_second s2 buff buff_offset buff_len =
    if ltb (u32 (buff_len - buff_offset)) (u32 (length second + 1))
    then some (result_length, buff)
    else (copy buff buff_offset (second ++ (0 ∷ [])) >>= λ buff. some (success, buff))
  where
    second : List ℕ
    second = if get_or s2 0 0 == path_sep then drop 1 s2 else s2

-- `ms_path_join`.
pub join : List ℕ → List ℕ → List ℕ → ℕ → Option (MsResult × List ℕ)
unfolding join_second
join s1 s2 buff buff_len =
    if ltb buff_len (u32 (length s1 + 1))
    then some (result_length, buff)
    else (copy buff 0 s1 >>= λ buff.
        if ltb 0 (length s1) && not (get_or buff (length s1 - 1) 0 == path_sep) && ltb 0 (length s2)
        then (if length s1 + 1 == buff_len
            then some (result_length, buff)
            else (put buff (length s1) path_sep >>= λ buff.
                join_second s2 buff (length s1 + 1) buff_len))
        else join_second s2 buff (length s1) buff_len)
