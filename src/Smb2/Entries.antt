-- ===== src/Smb2/Entries.antt =====
-- smb2_server/smb2_wire.py: the records that list and describe files, as a client reads them. What
-- `os.stat` says of a file is a record; its times are those of `to_filetime` already. A name is
-- its UTF-16 bytes already.
use ps2_servers.Base.{
  ℕ, ◌+◌, ◌-◌, ◌%◌, ◌^◌, bit_or, Bool, true, false, List, [], ◌∷◌, ◌++◌, Option, none, some, length,
  ◌==◌, if◌then◌else◌,
}
use ps2_servers.Bytes.{Bytes}
use ps2_servers.Bytes.Struct.{Field, unsigned, signed, raw, pack}
use ps2_servers.Exec.{Outcome, ok, raise}

pub record Stat : Type 0 where
  pub ctime : ℕ
  pub atime : ℕ
  pub mtime : ℕ
  pub size : ℕ
  pub ino : ℕ
  pub is_directory : Bool

abbrev pub attr_readonly : ℕ
attr_readonly = 1

abbrev pub attr_directory : ℕ
attr_directory = 16

abbrev pub attr_archive : ℕ
attr_archive = 32

abbrev pub attributes_for : Stat → Bool → ℕ
attributes_for st read_only =
    let attrs = if st.is_directory then attr_directory else attr_archive in
    if read_only then bit_or attrs attr_readonly else attrs

-- `(size + 4095) & ~4095`
abbrev pub allocation_of : Stat → ℕ
allocation_of st = let raised = st.size + 4095 in raised - raised % 4096

-- The four times of `_stat_times`: the change time is the time of the last write.
abbrev pub stat_times : Stat → List Field
stat_times st =
    unsigned 8 st.ctime ∷ unsigned 8 st.atime ∷ unsigned 8 st.mtime ∷ unsigned 8 st.mtime ∷ []

abbrev pub file_directory_information : ℕ
file_directory_information = 1

abbrev pub file_full_directory_information : ℕ
file_full_directory_information = 2

abbrev pub file_both_directory_information : ℕ
file_both_directory_information = 3

abbrev pub file_names_information : ℕ
file_names_information = 12

abbrev pub file_id_both_directory_information : ℕ
file_id_both_directory_information = 37

abbrev pub file_id_full_directory_information : ℕ
file_id_full_directory_information = 38

-- `st.st_ino & 0xFFFFFFFFFFFFFFFF`
abbrev pub file_number : Stat → Field
file_number st = unsigned 8 (st.ino % 2 ^ 64)

-- What FileDirectoryInformation and the classes that extend it begin with.
abbrev pub described : Bytes → Stat → Bool → List Field
described name st read_only =
    unsigned 4 0
    ∷ unsigned 4 0
    ∷ (stat_times st
        ++ (signed st.size
            ∷ signed (allocation_of st)
            ∷ unsigned 4 (attributes_for st read_only)
            ∷ unsigned 4 (length name)
            ∷ []))

abbrev pub both_fields : Bytes → Stat → Bool → Bool → List Field
both_fields name st read_only with_file_id =
    let numbered = if with_file_id then unsigned 2 0 ∷ file_number st ∷ [] else [] in
    described name st read_only
    ++ (unsigned 4 0 ∷ unsigned 1 0 ∷ unsigned 1 0 ∷ unsigned 24 0 ∷ (numbered ++ (raw name ∷ [])))

unfoldable pub both_directory_entry : Bytes → Stat → Bool → Bool → Outcome Bytes
both_directory_entry name st read_only with_file_id =
    pack (both_fields name st read_only with_file_id)

-- The fields of an entry, none for a class that is not encoded.
abbrev pub entry_fields : Bytes → Stat → ℕ → Bool → Option (List Field)
entry_fields name st info_class read_only =
    if info_class == file_both_directory_information
    then some (both_fields name st read_only false)
    else if info_class == file_id_both_directory_information
    then some (both_fields name st read_only true)
    else if info_class == file_directory_information
    then some (described name st read_only ++ (raw name ∷ []))
    else if info_class == file_full_directory_information
    then some (described name st read_only ++ (unsigned 4 0 ∷ raw name ∷ []))
    else if info_class == file_id_full_directory_information
    then some (
        described name st read_only
        ++ (unsigned 4 0 ∷ unsigned 4 0 ∷ file_number st ∷ raw name ∷ []))
    else if info_class == file_names_information
    then some (unsigned 4 0 ∷ unsigned 4 0 ∷ unsigned 4 (length name) ∷ raw name ∷ [])
    else none

abbrev pub packed_if : Option (List Field) → Outcome (Option Bytes)
packed_if none = ok none
packed_if (some fields) = elim (pack fields) [ ok bytes ↦ ok (some bytes) | raise e ↦ raise e ]

unfoldable pub directory_entry : Bytes → Stat → ℕ → Bool → Outcome (Option Bytes)
directory_entry name st info_class read_only = packed_if (entry_fields name st info_class read_only)

abbrev pub basic_fields : Stat → Bool → List Field
basic_fields st read_only =
    stat_times st ++ (unsigned 4 (attributes_for st read_only) ∷ unsigned 4 0 ∷ [])

abbrev pub standard_fields : Stat → List Field
standard_fields st =
    signed (allocation_of st)
    ∷ signed st.size
    ∷ unsigned 4 1
    ∷ unsigned 1 0
    ∷ unsigned 1 (if st.is_directory then 1 else 0)
    ∷ unsigned 2 0
    ∷ []

-- The fields of a QUERY_INFO answer, none for a class that is not encoded. `name` is in UTF-16.
abbrev pub info_fields : ℕ → Stat → Bytes → Bool → Option (List Field)
info_fields info_class st name read_only =
    if info_class == 4
    then some (basic_fields st read_only)
    else if info_class == 5
    then some (standard_fields st)
    else if info_class == 6
    then some (file_number st ∷ [])
    else if info_class == 7
    then some (unsigned 4 0 ∷ [])
    else if info_class == 8
    then some (unsigned 4 2032127 ∷ [])
    else if info_class == 14
    then some (signed 0 ∷ [])
    else if info_class == 16
    then some (unsigned 4 0 ∷ [])
    else if info_class == 17
    then some (unsigned 4 0 ∷ [])
    else if info_class == 9
    then some (unsigned 4 (length name) ∷ raw name ∷ [])
    else if info_class == 35
    then some (unsigned 4 (attributes_for st read_only) ∷ unsigned 4 0 ∷ [])
    else if info_class == 34
    then some (
        stat_times st
        ++ (signed (allocation_of st)
            ∷ signed st.size
            ∷ unsigned 4 (attributes_for st read_only)
            ∷ unsigned 4 0
            ∷ []))
    else if info_class == 18
    then some (
        basic_fields st read_only
        ++ (standard_fields st
            ++ (file_number st
                ∷ unsigned 4 0
                ∷ unsigned 4 2032127
                ∷ signed 0
                ∷ unsigned 4 0
                ∷ unsigned 4 0
                ∷ unsigned 4 (length name)
                ∷ raw name
                ∷ [])))
    else none

unfoldable pub file_info : ℕ → Stat → Bytes → Bool → Outcome (Option Bytes)
file_info info_class st name read_only = packed_if (info_fields info_class st name read_only)

-- What `os.statvfs` or `shutil.disk_usage` says: all units, the free ones, and sectors in a unit.
pub record Usage : Type 0 where
  pub total : ℕ
  pub free : ℕ
  pub sectors_per_unit : ℕ

-- "PS2SERVERS" and "NTFS" in UTF-16.
abbrev pub volume_label : Bytes
volume_label =
    80 ∷ 0 ∷ 83 ∷ 0 ∷ 50 ∷ 0 ∷ 83 ∷ 0 ∷ 69 ∷ 0 ∷ 82 ∷ 0 ∷ 86 ∷ 0 ∷ 69 ∷ 0 ∷ 82 ∷ 0 ∷ 83 ∷ 0 ∷ []

abbrev pub ntfs_name : Bytes
ntfs_name = 78 ∷ 0 ∷ 84 ∷ 0 ∷ 70 ∷ 0 ∷ 83 ∷ 0 ∷ []

abbrev pub volume_fields : ℕ → Usage → Option (List Field)
volume_fields info_class u =
    if info_class == 1
    then some (
        unsigned 8 0
        ∷ unsigned 4 1395802707
        ∷ unsigned 4 (length volume_label)
        ∷ unsigned 1 0
        ∷ unsigned 1 0
        ∷ raw volume_label
        ∷ [])
    else if info_class == 3
    then some (signed u.total ∷ signed u.free ∷ unsigned 4 u.sectors_per_unit ∷ unsigned 4 512 ∷ [])
    else if info_class == 7
    then some (
        signed u.total
        ∷ signed u.free
        ∷ signed u.free
        ∷ unsigned 4 u.sectors_per_unit
        ∷ unsigned 4 512
        ∷ [])
    else if info_class == 4
    then some (unsigned 4 7 ∷ unsigned 4 32 ∷ [])
    else if info_class == 5
    then some (unsigned 4 6 ∷ unsigned 4 255 ∷ unsigned 4 (length ntfs_name) ∷ raw ntfs_name ∷ [])
    else none

unfoldable pub fs_info : ℕ → Usage → Outcome (Option Bytes)
fs_info info_class usage = packed_if (volume_fields info_class usage)
