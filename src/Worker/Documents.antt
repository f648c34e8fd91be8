-- ===== src/Worker/Documents.antt =====
-- `(await object.json()) as T`: the document of a body, read with the type that the key has; none
-- where the text is no such document and the source's `catch` or identity test gives up.
use utm_curs_i_orar.Prelude.{Option, none, some}
use utm_curs_i_orar.Text.{Text}
use utm_curs_i_orar.Worker.Types.{
  Body, operation, descriptor, marker, manifest, accepted, heartbeat, cursor, OperationRecord,
  PendingDescriptor, CompletionMarker, SnapshotManifest, AcceptedPointer, PublisherHeartbeat,
}

abbrev pub as_operation : Body → Option OperationRecord
as_operation (operation r) = some r
as_operation _ = none

abbrev pub as_descriptor : Body → Option PendingDescriptor
as_descriptor (descriptor d) = some d
as_descriptor _ = none

abbrev pub as_marker : Body → Option CompletionMarker
as_marker (marker m) = some m
as_marker _ = none

abbrev pub as_manifest : Body → Option SnapshotManifest
as_manifest (manifest m) = some m
as_manifest _ = none

abbrev pub as_accepted : Body → Option AcceptedPointer
as_accepted (accepted a) = some a
as_accepted _ = none

abbrev pub as_heartbeat : Body → Option PublisherHeartbeat
as_heartbeat (heartbeat b) = some b
as_heartbeat _ = none

abbrev pub as_cursor : Body → Option Text
as_cursor (cursor c) = c
as_cursor _ = none
