-- ===== src/Models.antt =====
-- src/lib/models.ts and src/lib/client/types.ts: the documents that the application stores and
-- serves. Coordinates and scores in floating point (geometry, confidence) are left out, and what
-- a response holds beside the fields named here is one text.
use utm_curs_i_orar.Prelude.{ℕ, Bool, Option, none, List}
use utm_curs_i_orar.Text.{Text}

pub data DayName : Type 0 where
  luni marti miercuri joi vineri : DayName

pub data WeekParity : Type 0 where
  odd even both unknown : WeekParity

pub record Lesson : Type 0 where
  pub id : Text
  pub day : DayName
  pub slot_index : ℕ
  pub slot_span : ℕ
  pub start_time : Text
  pub end_time : Text
  pub groups : List Text
  pub subject : Text
  pub teacher : Option Text
  pub room : Option Text
  pub lesson_type : Text
  pub subgroup : Option Text
  pub week_parity : WeekParity
  pub notes : List Text
  pub raw_text : Text
  pub uncertain : Bool

pub data SourceKind : Type 0 where
  live wayback seed manual : SourceKind

pub data SourceTransport : Type 0 where
  direct broker : SourceTransport

pub record ScheduleMetadata : Type 0 where
  pub academic_year : Option Text
  pub semester : Option Text
  pub course_year : ℕ
  pub source_page_url : Text
  pub source_pdf_url : Text
  pub source_pdf_hash : Text
  pub source_kind : SourceKind
  pub source_transport : SourceTransport
  pub source_snapshot_id : Option Text
  pub downloaded_at : Text
  pub parsed_at : Text
  pub parser_version : Text
  pub etag : Option Text
  pub last_modified : Option Text
  pub pdf_title : Option Text

pub record ScheduleResponse : Type 0 where
  pub course_year : ℕ
  pub metadata : ScheduleMetadata
  pub groups : List Text
  pub days : List DayName
  pub lessons : List Lesson
  pub rest : Text

pub record StatusResponse : Type 0 where
  pub ok : Bool
  pub has_schedule : Bool
  pub course_year : ℕ
  pub odd_week_anchor : Text
  pub rest : Text

-- A stored timetable: its metadata, and the rest of the document as one text.
pub record Schedule : Type 0 where
  pub metadata : ScheduleMetadata
  pub rest : Text

pub data LastResult : Type 0 where
  updated unchanged rejected error seeded never : LastResult

pub record SourceState : Type 0 where
  pub current_pdf_url : Option Text
  pub current_pdf_hash : Option Text
  pub etag : Option Text
  pub last_modified : Option Text
  pub last_check_at : Option Text
  pub last_success_at : Option Text
  pub last_error : Option Text
  pub last_error_at : Option Text
  pub last_result : LastResult
  pub academic_year : Option Text
  pub semester : Option Text
  pub parity_note : Option Text

unfoldable pub create_empty_source_state : SourceState
create_empty_source_state = record {
  current_pdf_url = none;
  current_pdf_hash = none;
  etag = none;
  last_modified = none;
  last_check_at = none;
  last_success_at = none;
  last_error = none;
  last_error_at = none;
  last_result = never;
  academic_year = none;
  semester = none;
  parity_note = none;
}
