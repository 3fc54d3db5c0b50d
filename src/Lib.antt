-- ===== src/Lib.antt =====
-- Perma.cc: the permanent links service, its Django project under perma_web.
--
-- A user posts a URL. The API (perma_web/api/views/links.py) checks the quota of the user or the standing
-- of the folder's registrar, creates a Link with a new GUID in a folder, and puts a CaptureJob in a queue.
-- Workers (perma_web/perma/celery_tasks.py) take jobs from the queue and have the Scoop service capture
-- the page. Folders form trees that belong to a user, an organization or a sponsoring registrar, and who
-- may see or change a link follows from its folders. Users, organizations and registrars carry cached
-- counts of their links. Customers pay through a separate payments service.
--
-- The modules, and the code they model:
-- - LinkCounts: perma_web/perma/models/link_counts.py, the part of Organization.save that moves an
--   organization to another registrar, and Link.move_to_folder_for_user and Link.safe_delete for a link
--   that stands in one folder (LinkCounts.Moves). A table is a function from keys to rows, the cached counts are
--   compared with the links themselves (LinkCounts.Census).
-- - Guid: get_canonical_guid, guid_as_path and the choice of a new GUID in Link.save
--   (perma_web/perma/models/link.py). The loop has the source's hundred attempts; the splitting of a text
--   in chunks has as much fuel as the text has characters, and each round takes one at least.
-- - CaptureQueue: CaptureJob.save, get_next_job and queue_position (the same file). Orders are numbers
--   with the laws that floats keep while there is precision left; the workers of get_next_job act in
--   interleaved steps (CaptureQueue.Claims).
-- - Capture: capture_with_scoop, clean_up_failed_captures and run_next_capture of celery_tasks.py, with the
--   marking of jobs and can_play_back of links. Scoop's replies and the failures of steps are arguments;
--   the polling loop goes through the replies, and the soft time limit ends it where they end. The writes
--   that end a capture are taken to succeed.
-- - FolderTree: Folder.save of perma_web/perma/models/folder.py. The tree query of django-tree-queries is
--   a parameter, of which it is assumed that it returns a folder with all its descendants.
-- - Access: the permission methods of perma_web/perma/models/user.py and the access filters of folders,
--   links and organizations. The managers that hide deleted rows are written out.
-- - Quota: links_remaining_in_period, get_links_remaining and link_creation_allowed of user.py, and the
--   parts of the API's post and delete that spend and refund links. Calendar arithmetic is a parameter.
-- - Billing: the subscriptions, tiers and purchases of perma_web/perma/models/customer.py, and the
--   transmissions of the payments service in perma_web/perma/utils.py. Decryption, JSON, proration and the
--   answers of the payments service are arguments; rates are whole numbers of mills.
-- - InternetArchive: the tasks of celery_tasks.py that upload links to daily items of the Internet
--   Archive, delete and confirm them, and the functions that queue these tasks, with the models of
--   perma_web/perma/models/internet_archive.py. What the archive answers to a run is an argument; one daily
--   item with one link's file is followed. The soft time limit of the queueing of uploads is left out.
--   Protocol has the stages of a file at the archive, and the tasks, in any order, as steps between them.
-- - Sponsorships: Sponsorship.save of perma_web/perma/models/registrar.py, the views of
--   perma_web/perma/views/user_management/views.py that switch a sponsorship or change its end, and the
--   tasks of celery_tasks.py on the ends of sponsorships and affiliations. Sending an e-mail succeeds or is
--   logged, and only what is sent is modelled.
-- - UserManagement: the views of views/user_management/views.py that add a user to an organization, to a
--   registrar or to the administrators, and those that take a user out of one, deactivate or reactivate
--   the account, with their forms (perma_web/perma/forms.py), and approve_pending_registrar of
--   views/user_sign_up.py. A form's other fields are valid or not by an argument.
-- - FolderApi: the folder serializer (perma_web/api/serializers.py), the folder views
--   (perma_web/api/views/folders.py) and Folder.delete, on the rows of FolderTree. A request meets the first
--   refusal of those that the serializer collects; row locks are left out.
-- - LinkApi: what AuthenticatedLinkSerializer (perma_web/api/serializers.py) accepts as the URL, the
--   privacy and the file of a link, with the file types of perma_web/api/utils.py. Texts are ASCII codes; the
--   answers of Scoop and of the scan of files are arguments.
-- - Conversion: what convert_warc_to_wacz of celery_tasks.py checks before a WACZ is stored, with
--   calculate_s3_etag of perma_web/perma/utils.py. The loop that reads a file has as much fuel as the file has
--   bytes, and each round reads one at least. MD5, js-wacz and S3 are arguments.
-- - Prelude: Boolean tests, lists and counting that the components share.
-- - Examples: the results at concrete inputs.
--
-- Times are numbers of seconds. Not modelled: views that render pages, sign-up, other forms and the Django admin, e-mail,
-- storage backends, settings (parameters where they are read), logs, tags and texts of messages.
pub mod Prelude
pub mod LinkCounts
pub mod Guid
pub mod CaptureQueue
pub mod Access
pub mod Billing
pub mod Quota
pub mod Capture
pub mod FolderTree
pub mod InternetArchive
pub mod Sponsorships
pub mod UserManagement
pub mod FolderApi
pub mod LinkApi
pub mod Conversion
pub mod Examples
