-- ===== src/SaveData/State.antt =====
-- inferno_driver/savedata.h and the constants of savedata.cpp: the state of a CSaveData.
use inferno_windows.Prelude.{
  ℕ, ◌+◌, ◌*◌, Bool, false, Option, none, some, List, [], ◌++◌, get_or, dword,
}

-- DEFAULT_FRAME_COUNT, DEFAULT_FRAME_SIZE with pages of 4096 bytes, DEFAULT_BUFFER_SIZE,
-- MAX_WORKER_ITEM_COUNT
abbrev pub default_frame_count : ℕ
default_frame_count = 4

abbrev pub default_frame_size : ℕ
default_frame_size = 4096 * 4

abbrev pub default_buffer_size : ℕ
default_buffer_size = default_frame_size * default_frame_count

abbrev pub max_worker_item_count : ℕ
max_worker_item_count = 8

-- sizeof (PCMWAVEFORMAT), sizeof (WAVEFORMATEX), WAVE_FORMAT_PCM
abbrev pub pcm_format_size : ℕ
pcm_format_size = 16

abbrev pub format_ex_size : ℕ
format_ex_size = 18

abbrev pub format_pcm : ℕ
format_pcm = 1

-- SAVEWORKER_PARAM. `allocated` says that WorkItem is not NULL, `done` that EventDone is signalled;
-- `start` is pData, as an offset from m_pDataBuffer.
pub record WorkItem : Type 0 where
  pub allocated : Bool
  pub done : Bool
  pub frame_no : ℕ
  pub data_size : ℕ
  pub start : ℕ

abbrev pub no_item : WorkItem
no_item = record { allocated = false; done = false; frame_no = 0; data_size = 0; start = 0 }

-- OUTPUT_FILE_HEADER
pub record FileHeader : Type 0 where
  pub riff : ℕ
  pub file_size : ℕ
  pub wave : ℕ
  pub format : ℕ
  pub format_length : ℕ

-- OUTPUT_DATA_HEADER
pub record DataHeader : Type 0 where
  pub tag : ℕ
  pub data_length : ℕ

abbrev pub file_header_bytes : FileHeader → List ℕ
file_header_bytes h =
    dword h.riff ++ dword h.file_size ++ dword h.wave ++ dword h.format ++ dword h.format_length

abbrev pub data_header_bytes : DataHeader → List ℕ
data_header_bytes h = dword h.tag ++ dword h.data_length

-- A WAVEFORMATEX is its bytes; the tag and cbSize are the words at 0 and 16.
abbrev pub word_at : List ℕ → ℕ → ℕ
word_at bytes i = get_or bytes i 0 + 256 * get_or bytes (i + 1) 0

abbrev pub format_tag : List ℕ → ℕ
format_tag format = word_at format 0

abbrev pub cb_size : List ℕ → ℕ
cb_size format = word_at format 16

-- m_FileName, by what the stream number and its kind print.
pub record FileName : Type 0 where
  pub offload : Bool
  pub number : ℕ

-- The members of CSaveData; an Option is a pointer that may be NULL. `file_open` says that
-- m_FileHandle is set. The spin lock and the mutex have no state of their own here.
pub record SaveData : Type 0 where
  pub file_name : Option FileName
  pub file_open : Bool
  pub data_buffer : Option (List ℕ)
  pub buffer_size : ℕ
  pub frame_index : ℕ
  pub frame_count : ℕ
  pub frame_size : ℕ
  pub buffer_offset : ℕ
  pub frame_used : List Bool
  pub file_header : FileHeader
  pub wave_format : Option (List ℕ)
  pub data_header : DataHeader
  pub file_ptr : Option ℕ
  pub work_items : List WorkItem
  pub write_disabled : Bool
  pub initialized : Bool

-- The bytes behind m_pDataBuffer.
abbrev pub buffer_of : Option (List ℕ) → List ℕ
buffer_of none = []
buffer_of (some b) = b

-- The constructor.
abbrev pub create : SaveData
create = record {
  file_name = none;
  file_open = false;
  data_buffer = none;
  buffer_size = default_buffer_size;
  frame_index = 0;
  frame_count = default_frame_count;
  frame_size = default_frame_size;
  buffer_offset = 0;
  frame_used = [];
  file_header = record {
    riff = 0x46464952;
    file_size = 0;
    wave = 0x45564157;
    format = 0x20746D66;
    format_length = format_ex_size;
  };
  wave_format = none;
  data_header = record { tag = 0x61746164; data_length = 0 };
  file_ptr = none;
  work_items = [];
  write_disabled = false;
  initialized = false;
}
