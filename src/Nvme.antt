-- ===== src/Nvme.antt =====
-- The queues and commands of kernel/device/nvme/nvme.c. A queue is a function from its slots; the
-- controller, which fills the completion queues and reads the doorbells, is left out.
pub mod Rings
mod Tests
use angl_os.Base.{
  ℕ, zero, suc, ◌+◌, ◌-◌, ◌*◌, ◌/◌, ◌%◌, ◌^◌, bit_and, bit_or, bit_xor, ◌==◌, if◌then◌else◌, u8,
  u16, u32, ◌>>>◌, ◌<<<◌, update,
}

-- `nvme_submission_t`
pub record Submission : Type 0 where
  pub opcode : ℕ
  pub fused : ℕ
  pub id : ℕ
  pub prp_sgl : ℕ
  pub nsid : ℕ
  pub rev0 : ℕ
  pub meta : ℕ
  pub prp0 : ℕ
  pub prp1 : ℕ
  pub com_spec0 : ℕ
  pub com_spec1 : ℕ
  pub com_spec2 : ℕ
  pub com_spec3 : ℕ
  pub com_spec4 : ℕ
  pub com_spec5 : ℕ

-- `nvme_completion_t`
pub record Completion : Type 0 where
  pub com_spec : ℕ
  pub sub_head : ℕ
  pub sub_id : ℕ
  pub com_id : ℕ
  pub phase : ℕ
  pub status : ℕ

abbrev pub admin_queue_size : ℕ
admin_queue_size = 8

abbrev pub io_queue_size : ℕ
io_queue_size = 32

-- The static variables, the four queues, and the doorbells by their number.
pub record Nvme : Type 0 where
  pub admin_sub : ℕ → Submission
  pub admin_com : ℕ → Completion
  pub io_sub : ℕ → Submission
  pub io_com : ℕ → Completion
  pub admin_sub_tail : ℕ
  pub admin_com_head : ℕ
  pub admin_new_phase : ℕ
  pub io_sub_tail : ℕ
  pub io_com_head : ℕ
  pub io_new_phase : ℕ
  pub doorbells : ℕ → ℕ

-- `putAdminCommand`, `ringAdminSub`, `getAdminResponse` and `ringAdminCom`
pub put_admin_command : Submission → Nvme → Nvme
put_admin_command command s = record s { admin_sub = update s.admin_sub s.admin_sub_tail command }

pub ring_admin_sub : ℕ → Nvme → Nvme
ring_admin_sub num s =
    let tail = (s.admin_sub_tail + num) % admin_queue_size in
    record s { admin_sub_tail = tail; doorbells = update s.doorbells 0 tail }

pub get_admin_response : Nvme → Completion
get_admin_response s = s.admin_com s.admin_com_head

pub ring_admin_com : ℕ → Nvme → Nvme
ring_admin_com num s =
    let head = (s.admin_com_head + num) % admin_queue_size in
    record s {
      admin_com_head = head;
      admin_new_phase = if head == 0 then bit_xor s.admin_new_phase 1 else s.admin_new_phase;
      doorbells = update s.doorbells 1 head;
    }

-- `putIOCommand`, `ringIOSub`, `getIOResponse` and `ringIOCom`
pub put_io_command : Submission → Nvme → Nvme
put_io_command command s = record s { io_sub = update s.io_sub s.io_sub_tail command }

pub ring_io_sub : ℕ → Nvme → Nvme
ring_io_sub num s =
    let tail = (s.io_sub_tail + num) % io_queue_size in
    record s { io_sub_tail = tail; doorbells = update s.doorbells 2 tail }

pub get_io_response : Nvme → Completion
get_io_response s = s.io_com s.io_com_head

pub ring_io_com : ℕ → Nvme → Nvme
ring_io_com num s =
    let head = (s.io_com_head + num) % io_queue_size in
    record s {
      io_com_head = head;
      io_new_phase = if head == 0 then bit_xor s.io_new_phase 1 else s.io_new_phase;
      doorbells = update s.doorbells 3 head;
    }

-- the fields that the commands of this file share
abbrev pub plain_command :
    (opcode nsid meta prp0 prp1 com_spec0 com_spec1 com_spec2 : ℕ) → Submission
plain_command opcode nsid meta prp0 prp1 com_spec0 com_spec1 com_spec2 = record {
  opcode = opcode;
  fused = 0;
  id = opcode;
  prp_sgl = 0;
  nsid = nsid;
  rev0 = 0;
  meta = meta;
  prp0 = prp0;
  prp1 = prp1;
  com_spec0 = com_spec0;
  com_spec1 = com_spec1;
  com_spec2 = com_spec2;
  com_spec3 = 0;
  com_spec4 = 0;
  com_spec5 = 0;
}

-- `nvmeCreateSubQueue` and `nvmeCreateComQueue`
pub nvme_create_sub_queue : (paddr id size flags com_id : ℕ) → Nvme → Nvme
nvme_create_sub_queue paddr id size flags com_id = put_admin_command (
    plain_command 1 0 0 paddr 0 (bit_or id (u32 ((size + 2 ^ 32 - 1) <<< 16)))
      (bit_or flags (u32 (com_id <<< 16))) 0)

pub nvme_create_com_queue : (paddr id size flags int_vector : ℕ) → Nvme → Nvme
nvme_create_com_queue paddr id size flags int_vector = put_admin_command (
    plain_command 5 0 0 paddr 0 (bit_or id (u32 ((size + 2 ^ 32 - 1) <<< 16)))
      (bit_or flags (u32 (int_vector <<< 16))) 0)

-- `nvmeIdentifyNamespace`, `nvmeIdentifyController` and `nvmeIdentifyNamespaceList`
pub nvme_identify_namespace : (paddr nsid : ℕ) → Nvme → Nvme
nvme_identify_namespace paddr nsid = put_admin_command (plain_command 6 nsid 0 paddr 0 0 0 0)

pub nvme_identify_controller : ℕ → Nvme → Nvme
nvme_identify_controller paddr = put_admin_command (plain_command 6 0 0 paddr 0 1 0 0)

pub nvme_identify_namespace_list : ℕ → Nvme → Nvme
nvme_identify_namespace_list paddr = put_admin_command (plain_command 6 0 0 paddr 0 2 0 0)

-- `nvme_read_info_t` and `nvme_write_info_t`
pub record TransferInfo : Type 0 where
  pub nsid : ℕ
  pub meta : ℕ
  pub prp0 : ℕ
  pub prp1 : ℕ
  pub lba_start : ℕ
  pub limited_retry : ℕ
  pub force_unit_access : ℕ
  pub protection_info : ℕ
  pub lba_num : ℕ

-- the command of `nvmeRead` and `nvmeWrite`
pub transfer_command : ℕ → TransferInfo → Submission
transfer_command opcode info =
    plain_command opcode info.nsid info.meta info.prp0 info.prp1 (bit_and info.lba_start 0xFFFFFFFF)
      (bit_and (info.lba_start >>> 32) 0xFFFFFFFF)
      (bit_or
        (bit_or
          (bit_or (bit_and info.limited_retry 1 <<< 31) (bit_and info.force_unit_access 1 <<< 30))
          (bit_and info.protection_info 0xF <<< 26))
        (bit_and info.lba_num 0xFFFF))

-- `nvmeRead` and `nvmeWrite`
pub nvme_read : TransferInfo → Nvme → Nvme
nvme_read info = put_io_command (transfer_command 2 info)

pub nvme_write : TransferInfo → Nvme → Nvme
nvme_write info = put_io_command (transfer_command 1 info)
